-- ===== src/Config/RoundTrip.antt =====
-- Reading back what the writer of the managed files wrote.
pub mod Text
pub mod Operand
pub mod DomainSet
pub mod IpSet
pub mod Sets
