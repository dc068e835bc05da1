-- ===== src/Utils.antt =====
-- `parse_value` of src/utils.rs for unsigned integers, and the settings that are read with it:
-- `load_config` of src/data_server.rs and of src/http_server.rs.
use smartdns_plus_ui.Base.Word.{u32_mod, u64_mod, parse_unsigned}
use smartdns_plus_ui.Base.{ℕ, ◌*◌, ◌≤◌, arith, Option, none, some, if◌then◌else◌, ltb, Text}

-- `bound` is that of the type: a text that is no number below it does not parse
unfoldable pub parse_value : ℕ → Option Text → ℕ → ℕ → ℕ → ℕ
parse_value bound none min_value max_value default = default
parse_value bound (some value) min_value max_value default = elim (parse_unsigned bound value) [
  | none ↦ default
  | some v ↦
      let raised = if ltb v min_value then min_value else v in
      if ltb max_value raised then max_value else raised
]

-- What is read lies between the least and the greatest value, where the default does.
pub parse_value_bounds :
    (bound : ℕ) (value : Option Text) (min_value max_value default : ℕ)
    → min_value ≤ max_value
    → min_value ≤ default
    → default ≤ max_value
    → (min_value ≤ parse_value bound value min_value max_value default)
      × (parse_value bound value min_value max_value default ≤ max_value)
unfolding parse_value
parse_value_bounds bound none min_value max_value default h k l = (k, l)
parse_value_bounds bound (some value) min_value max_value default h k l = ground arith

-- `max_log_age_ms`, from the setting `max-query-log-age`
unfoldable pub max_log_age_ms : Option Text → ℕ
unfolding parse_value
max_log_age_ms setting =
    parse_value u64_mod setting 600 (365 * 24 * 60 * 60 * 10) (30 * 24 * 60 * 60) * 1000

-- `token_expired_time`, from the setting `token-expire`
unfoldable pub token_expired_time : Option Text → ℕ
unfolding parse_value
token_expired_time setting = parse_value u32_mod setting 60 (365 * 24 * 60 * 60) (30 * 24 * 60 * 60)

-- Whatever the settings hold, queries are kept for ten minutes at least and ten years at most, and
-- a token is good for a minute at least and a year at most; neither number overflows.
pub settings_bounds :
    (age expire : Option Text)
    → (600000 ≤ max_log_age_ms age)
      × (max_log_age_ms age ≤ 315360000000)
      × (60 ≤ token_expired_time expire)
      × (token_expired_time expire ≤ 31536000)
unfolding max_log_age_ms token_expired_time
settings_bounds age expire =
    let (a, b) =
      parse_value_bounds u64_mod age 600 (365 * 24 * 60 * 60 * 10) (30 * 24 * 60 * 60) (omega arith)
        (omega arith) (omega arith) in
    let (c, d) =
      parse_value_bounds u32_mod expire 60 (365 * 24 * 60 * 60) (30 * 24 * 60 * 60) (omega arith)
        (omega arith) (omega arith) in
    (omega arith, omega arith, c, d)
