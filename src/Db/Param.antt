-- ===== src/Db/Param.antt =====
-- The parameters of the domain and client lists (src/db.rs).
use smartdns_plus_ui.Base.{ℕ, Bool, Option, none, Text}

pub record DomainListGetParamCursor : Type 0 where
  pub id : Option ℕ
  pub total_count : ℕ
  pub direction : Text

pub record ClientListGetParamCursor : Type 0 where
  pub id : Option ℕ
  pub total_count : ℕ
  pub direction : Text

pub record DomainListGetParam : Type 0 where
  pub id : Option ℕ
  pub order : Option Text
  pub page_num : ℕ
  pub page_size : ℕ
  pub domain : Option Text
  pub domain_filter_mode : Option Text
  pub domain_type : Option ℕ
  pub client : Option Text
  pub domain_group : Option Text
  pub reply_code : Option ℕ
  pub timestamp_before : Option ℕ
  pub timestamp_after : Option ℕ
  pub is_blocked : Option Bool
  pub is_cached : Option Bool
  pub cursor : Option DomainListGetParamCursor

-- `DomainListGetParam::new()`
abbrev pub new_domain_param : DomainListGetParam
new_domain_param = record {
  id = none;
  page_num = 1;
  order = none;
  page_size = 10;
  domain = none;
  domain_filter_mode = none;
  domain_type = none;
  client = none;
  domain_group = none;
  reply_code = none;
  timestamp_before = none;
  timestamp_after = none;
  is_blocked = none;
  is_cached = none;
  cursor = none;
}

pub record ClientListGetParam : Type 0 where
  pub id : Option ℕ
  pub order : Option Text
  pub page_num : ℕ
  pub page_size : ℕ
  pub client_ip : Option Text
  pub mac : Option Text
  pub hostname : Option Text
  pub timestamp_before : Option ℕ
  pub timestamp_after : Option ℕ
  pub cursor : Option ClientListGetParamCursor

-- `ClientListGetParam::new()`
abbrev pub new_client_param : ClientListGetParam
new_client_param = record {
  id = none;
  page_num = 1;
  order = none;
  page_size = 10;
  client_ip = none;
  mac = none;
  hostname = none;
  timestamp_before = none;
  timestamp_after = none;
  cursor = none;
}
