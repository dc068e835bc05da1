-- ===== src/Tests/LogTests.antt =====
-- The log streams of src/server_log.rs on three receivers.
use smartdns_plus_ui.Base.{◌≡◌, ℕ, true, false, List, [], ◌∷◌, map, filter}
use smartdns_plus_ui.Log.{Stream, dispatch}
use smartdns_plus_ui.Log.Dispatch.{is_open, deliver, dispatch_lem}

abbrev three_streams : List (Stream ℕ)
three_streams =
    record { queue = 1 ∷ []; closed = false }
    ∷ record { queue = []; closed = true }
    ∷ record { queue = []; closed = false }
    ∷ []

dispatch_lem_example : dispatch 7 three_streams ≡ map (deliver 7) (filter is_open three_streams)
dispatch_lem_example = dispatch_lem 7 three_streams
