-- ===== src/Stats/Dropped.antt =====
-- The counter of dropped requests (`add_request_drop`, src/data_stats.rs).
use Prim.Native.Nat.{bit_and, bit_and-bitwise, digits, min}
use smartdns_plus_ui.Base.{ℕ, zero, suc, ◌/◌, ◌≡◌, refl, ◌∙◌, ap, arith, List, [], ◌∷◌}
use smartdns_plus_ui.Stats.{
  DataStatsItem, new_item, Event, request_drop, apply, run, StatusData, load_status_data,
}

pub zero-bit_and : (b : ℕ) → bit_and 0 b ≡ 0
zero-bit_and b = bit_and-bitwise 0 b

digits-zero : (n a b : ℕ) → b ≡ 0 → digits (λ x. zero) min n a b ≡ 0
digits-zero zero a b h = refl
digits-zero (suc n) zero b h = refl
digits-zero (suc n) (suc a) b h = omega (arith, digits-zero n (suc a / 2) (b / 2) (omega arith))

pub bit_and-zero : (a : ℕ) → bit_and a 0 ≡ 0
bit_and-zero a = bit_and-bitwise a 0 ∙ digits-zero a a 0 refl

apply-dropped :
    (e : Event) (s : DataStatsItem) → s.request_dropped ≡ 0 → (apply e s).request_dropped ≡ 0
unfolding apply
apply-dropped (request_drop n) s h = ap (λ d. bit_and d n) h ∙ zero-bit_and n
apply-dropped _ s h = h

run-dropped :
    (es : List Event) (s : DataStatsItem) → s.request_dropped ≡ 0 → (run es s).request_dropped ≡ 0
unfolding run
run-dropped [] s h = h
run-dropped (e ∷ es) s h = run-dropped es (apply e s) (apply-dropped e s h)

-- Whatever was saved before and however many requests are dropped, the counter of dropped
-- requests of a server that has started is 0 for ever.
pub request_dropped_stuck :
    (m : StatusData) (domains blocked : ℕ) (es : List Event)
    → (run es (load_status_data m domains blocked new_item)).request_dropped ≡ 0
unfolding load_status_data
request_dropped_stuck m domains blocked es =
    run-dropped es (load_status_data m domains blocked new_item) (zero-bit_and _)
