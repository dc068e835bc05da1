-- ===== src/Config/Model.antt =====
-- The structs of src/config_ui.rs.
use smartdns_plus_ui.Base.{ℕ, Bool, false, List, [], Option, Text}

pub record UpstreamConfig : Type 0 where
  pub kind : Text
  pub value : Text
  pub groups : List Text
  pub exclude_default_group : Bool
  pub proxy_name : Text
  pub bootstrap_dns : Text
  pub host_ip : Text
  pub subnet : Text
  pub fallback : Bool
  pub options : Text
  pub note : Text

-- `UpstreamConfig::default()`
abbrev pub default_upstream : UpstreamConfig
default_upstream = record {
  kind = [];
  value = [];
  groups = [];
  exclude_default_group = false;
  proxy_name = [];
  bootstrap_dns = [];
  host_ip = [];
  subnet = [];
  fallback = false;
  options = [];
  note = [];
}

-- `extras` is an association list, a key at most once.
pub record BeginnerConfig : Type 0 where
  pub server_name : Text
  pub binds : List Text
  pub cache_size : Text
  pub prefetch_domain : Bool
  pub serve_expired : Bool
  pub serve_expired_ttl : Text
  pub response_mode : Text
  pub speed_check_mode : Text
  pub dualstack_ip_selection : Bool
  pub log_level : Text
  pub mdns_lookup : Bool
  pub audit_enable : Bool
  pub upstreams : List UpstreamConfig
  pub extras : List (Text × Text)

pub record RoutingRuleItem : Type 0 where
  pub rule_type : Text
  pub target : Text
  pub value : Text
  pub source : Text
  pub note : Text

pub record RuleSetAsset : Type 0 where
  pub name : Text
  pub set_type : Text
  pub file : Text
  pub source : Text
  pub rule_count : ℕ
  pub sample_items : List Text
  pub referenced_by : List Text

pub record RuleSetFileDetail : Type 0 where
  pub name : Text
  pub set_type : Text
  pub file : Text
  pub source : Text
  pub exists : Bool
  pub rule_count : ℕ
  pub filtered_count : ℕ
  pub offset : ℕ
  pub limit : ℕ
  pub has_more : Bool
  pub items : List Text
  pub sample_items : List Text
  pub referenced_by : List Text

pub record RuleGroupAsset : Type 0 where
  pub name : Text
  pub inherit : Text
  pub source : Text
  pub include_file : Text
  pub matchers : List Text
  pub rule_count : ℕ

pub record ClientRuleAsset : Type 0 where
  pub matcher : Text
  pub group_name : Text
  pub source : Text
  pub note : Text

pub record IpRuleAsset : Type 0 where
  pub rule_type : Text
  pub target : Text
  pub options : Text
  pub group_name : Text
  pub source : Text
  pub note : Text

pub record IpSetAsset : Type 0 where
  pub name : Text
  pub file : Text
  pub source : Text
  pub rule_count : ℕ
  pub sample_items : List Text
  pub referenced_by : List Text

pub record SaveRuleSetFileRequest : Type 0 where
  pub add_items : List Text
  pub remove_items : List Text

pub record ManagedRuleGroup : Type 0 where
  pub name : Text
  pub inherit : Text
  pub matchers : List Text

pub record ManagedClientRule : Type 0 where
  pub matcher : Text
  pub group_name : Text

pub record ManagedIpRule : Type 0 where
  pub rule_type : Text
  pub target : Text
  pub options : Text
  pub group_name : Text

pub record ManagedRoutingItem : Type 0 where
  pub rule_type : Text
  pub target : Text
  pub value : Text

pub record ManagedDomainSet : Type 0 where
  pub name : Text
  pub file : Text
  pub set_type : Text

pub record ManagedIpSet : Type 0 where
  pub name : Text
  pub file : Text

pub record ManagedAssets : Type 0 where
  pub rule_groups : List ManagedRuleGroup
  pub client_rules : List ManagedClientRule
  pub ip_rules : List ManagedIpRule
  pub routing_items : List ManagedRoutingItem
  pub domain_sets : List ManagedDomainSet
  pub ip_sets : List ManagedIpSet

abbrev pub no_assets : ManagedAssets
no_assets = record {
  rule_groups = [];
  client_rules = [];
  ip_rules = [];
  routing_items = [];
  domain_sets = [];
  ip_sets = [];
}

pub record ValidationResult : Type 0 where
  pub is_ok : Bool
  pub errors : List Text
  pub warnings : List Text

-- A configuration file that was read, with the group that its `conf-file` line gave it.
pub record ConfigSource : Type 0 where
  pub path : Text
  pub text : Text
  pub implicit_group : Option Text
