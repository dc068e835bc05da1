-- ===== src/Stats/Qps.antt =====
-- The rate and the totals against the sums of what was reported (src/data_stats.rs).
use smartdns_plus_ui.Base.Word.{u32_mod, u64_mod}
use smartdns_plus_ui.Base.{
  ℕ, ◌+◌, ◌%◌, ◌<◌, ◌≡◌, refl, ◌∙◌, ap, arith, Bool, true, false, List, [], ◌∷◌, ◌++◌, all,
}
use smartdns_plus_ui.Stats.Dropped.{bit_and-zero}
use smartdns_plus_ui.Stats.{
  DataStatsItem, Event, qps_count, request_drop, total_request, total_blocked_request,
  total_failed_request, second_tick, apply, run,
}

-- the sums of what the events of one kind report
abbrev pub queries : List Event → ℕ
queries [] = 0
queries (qps_count n ∷ es) = n + queries es
queries (_ ∷ es) = queries es

abbrev pub requests : List Event → ℕ
requests [] = 0
requests (total_request n ∷ es) = n + requests es
requests (_ ∷ es) = requests es

abbrev pub is_report : Event → Bool
is_report second_tick = false
is_report _ = true

run-append : (es fs : List Event) (s : DataStatsItem) → run (es ++ fs) s ≡ run fs (run es s)
unfolding run
run-append [] fs s = refl
run-append (e ∷ es) fs s = run-append es fs (apply e s)

run-qps_count :
    (es : List Event) (s : DataStatsItem)
    → all is_report es ≡ true
    → s.qps_count < u32_mod
    → (run es s).qps_count ≡ (s.qps_count + queries es) % u32_mod
unfolding run apply
run-qps_count [] s h b = omega arith
run-qps_count (qps_count n ∷ es) s h b =
    run-qps_count es (apply (qps_count n) s) h (omega arith) ∙ omega arith
run-qps_count (second_tick ∷ es) s h b = cc
run-qps_count (request_drop n ∷ es) s h b = run-qps_count es (apply (request_drop n) s) h b
run-qps_count (total_request n ∷ es) s h b = run-qps_count es (apply (total_request n) s) h b
run-qps_count (total_blocked_request n ∷ es) s h b =
    run-qps_count es (apply (total_blocked_request n) s) h b
run-qps_count (total_failed_request n ∷ es) s h b =
    run-qps_count es (apply (total_failed_request n) s) h b

-- When the second ends, the rate is what was counted in it, on top of what was left, modulo 2^32,
-- and the count starts again at 0: no query is counted in two seconds.
pub update_qps_lem :
    (es : List Event) (s : DataStatsItem)
    → all is_report es ≡ true
    → s.qps_count < u32_mod
    → (let s' = run (es ++ second_tick ∷ []) s in
        (s'.qps ≡ (s.qps_count + queries es) % u32_mod) × (s'.qps_count ≡ 0))
unfolding run apply
update_qps_lem es s h b = (
  ap (λ (t : DataStatsItem). t.qps) (run-append es (second_tick ∷ []) s) ∙ run-qps_count es s h b,
  ap (λ (t : DataStatsItem). t.qps_count) (run-append es (second_tick ∷ []) s)
      ∙ bit_and-zero (run es s).qps_count,
)

-- The total of requests is the sum of all reports, modulo 2^64, whatever else happens.
pub total_request_lem :
    (es : List Event) (s : DataStatsItem)
    → s.total_request < u64_mod
    → (run es s).total_request ≡ (s.total_request + requests es) % u64_mod
unfolding run apply
total_request_lem [] s b = omega arith
total_request_lem (total_request n ∷ es) s b =
    total_request_lem es (apply (total_request n) s) (omega arith) ∙ omega arith
total_request_lem (qps_count n ∷ es) s b = total_request_lem es (apply (qps_count n) s) b
total_request_lem (second_tick ∷ es) s b = total_request_lem es (apply second_tick s) b
total_request_lem (request_drop n ∷ es) s b = total_request_lem es (apply (request_drop n) s) b
total_request_lem (total_blocked_request n ∷ es) s b =
    total_request_lem es (apply (total_blocked_request n) s) b
total_request_lem (total_failed_request n ∷ es) s b =
    total_request_lem es (apply (total_failed_request n) s) b
