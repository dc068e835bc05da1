-- ===== src/Tests/UtilsTests.antt =====
-- The settings of src/utils.rs on small inputs.
use smartdns_plus_ui.Base.{◌≤◌, ◌≡◌, refl, none, some, codes}
use smartdns_plus_ui.Base.Word.{parse_unsigned}
use smartdns_plus_ui.Utils.{max_log_age_ms, token_expired_time, settings_bounds}

too_short : max_log_age_ms (some (codes "5")) ≡ 600000
unfolding max_log_age_ms parse_unsigned
too_short = refl

settings_bounds_example :
    (600000 ≤ max_log_age_ms (some (codes "5")))
    × (max_log_age_ms (some (codes "5")) ≤ 315360000000)
    × (60 ≤ token_expired_time none)
    × (token_expired_time none ≤ 31536000)
settings_bounds_example = settings_bounds (some (codes "5")) none
