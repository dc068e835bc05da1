-- ===== src/Config.antt =====
-- The configuration editor, src/config_ui.rs: the structs it works on, the reader of SmartDNS
-- configuration text, the writer of the managed files, the rule-set files and the validation.
pub mod Model
pub mod Lines
pub mod Managed
pub mod Render
pub mod RoundTrip
pub mod RuleSet
pub mod Validate
pub mod Upstream
pub mod Beginner
pub mod Pages
pub mod Assets
pub mod Paths
pub mod Block
pub mod Include
pub mod Store
pub mod Save
