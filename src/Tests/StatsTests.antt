-- ===== src/Tests/StatsTests.antt =====
-- The counters of src/data_stats.rs on small inputs.
use smartdns_plus_ui.Base.{◌%◌, ◌≡◌, refl, arith, [], ◌∷◌, ◌++◌, codes, true}
use smartdns_plus_ui.Base.Word.{u32_mod}
use smartdns_plus_ui.Stats.{
  DataStatsItem, new_item, qps_count, request_drop, total_request, second_tick, run,
  load_status_data, save_status_data,
}
use smartdns_plus_ui.Stats.Dropped.{request_dropped_stuck}
use smartdns_plus_ui.Stats.Qps.{update_qps_lem}
use smartdns_plus_ui.Stats.Saved.{load-save}

request_dropped_stuck_example :
    (run
      (request_drop 1 ∷ request_drop 1 ∷ [])
      (load_status_data ((codes "request_drop", codes "12") ∷ []) 3 1 new_item)).request_dropped
    ≡ 0
request_dropped_stuck_example =
    request_dropped_stuck ((codes "request_drop", codes "12") ∷ []) 3 1
      (request_drop 1 ∷ request_drop 1 ∷ [])

update_qps_lem_example :
    (let s' =
        run ((qps_count 2 ∷ total_request 1 ∷ qps_count 3 ∷ []) ++ second_tick ∷ []) new_item in
      (s'.qps ≡ 5 % u32_mod) × (s'.qps_count ≡ 0))
update_qps_lem_example =
    update_qps_lem (qps_count 2 ∷ total_request 1 ∷ qps_count 3 ∷ []) new_item refl (omega arith)

abbrev busy : DataStatsItem
busy = record new_item { total_request = 1234; total_failed_request = 56 }

load-save_example :
    (let loaded = load_status_data (save_status_data (λ key. true) busy []).0 99 8 new_item in
      (loaded.total_request ≡ 1234)
      × (loaded.total_blocked_request ≡ 8)
      × (loaded.total_failed_request ≡ 56))
unfolding save_status_data
load-save_example =
    load-save busy [] (omega arith) (omega arith) (omega arith) (λ key. true) 99 8 refl
      (omega arith) (omega arith)
