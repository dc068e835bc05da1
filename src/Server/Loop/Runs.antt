-- ===== src/Server/Loop/Runs.antt =====
-- What holds in every turn of the event loop (src/data_server.rs).
use smartdns_plus_ui.Base.Word.{u64_mod}
use smartdns_plus_ui.Base.{
  ℕ, ◌+◌, ◌%◌, ◌<◌, Bool, false, not, ◌&&◌, List, [], ◌∷◌, ◌++◌, ◌≡◌, refl, ◌∙◌, arith, ltb, length,
  filter, is_empty, none, some, Bool-cases, inl, inr, length-append, filter-append, length-map,
}
use smartdns_plus_ui.Server.{
  DnsRequest, Server, Environment, is_counted, domain_data, data_server_handle_dns_request,
  flush_clients, server_check,
}
use smartdns_plus_ui.Server.Loop.{
  Loop, LoopEvent, received, batch_due, flush_due, check_due, batch_size, loop_step, loop_run,
  handle_all,
}
use smartdns_plus_ui.Stats.{add_total_request, add_total_blocked_request, add_total_failed_request}

-- Fewer requests wait than a batch has, and a timer runs exactly while some wait.
pub record IsWaiting (batch_mode : Bool) (l : Loop) : Type 0 where
  pub bound : length l.req_list < batch_size batch_mode
  pub timer : l.batch_timer ≡ not (is_empty l.req_list)

IsWaiting-empty :
    (batch_mode : Bool) (l : Loop)
    → l.req_list ≡ []
    → l.batch_timer ≡ false
    → IsWaiting batch_mode l
unfolding batch_size
IsWaiting-empty batch_mode l e t = record { bound = rw e (ground arith); timer = rw (e, t) refl }

is_empty-append-cons :
    (xs : List DnsRequest) (r : DnsRequest) (rs : List DnsRequest) → is_empty (xs ++ r ∷ rs) ≡ false
is_empty-append-cons [] r rs = refl
is_empty-append-cons (x ∷ xs) r rs = refl

loop_step-IsWaiting :
    (batch_mode : Bool) (e : LoopEvent) (l : Loop)
    → IsWaiting batch_mode l
    → IsWaiting batch_mode (loop_step batch_mode e l)
unfolding loop_step
loop_step-IsWaiting batch_mode (received env []) l h = h
loop_step-IsWaiting batch_mode (received env (r ∷ rs)) l h =
    elim (Bool-cases (batch_mode && ltb (length (l.req_list ++ r ∷ rs)) (batch_size batch_mode))) [
      | inl waits ↦ rw waits (record {
        bound = ground (arith, waits);
        timer = rw (is_empty-append-cons l.req_list r rs) refl;
      })
      | inr full ↦ rw full (IsWaiting-empty batch_mode _ refl refl)
    ]
loop_step-IsWaiting batch_mode (batch_due env) l h = elim (Bool-cases l.batch_timer) [
  | inl on ↦ rw on (IsWaiting-empty batch_mode _ refl refl)
  | inr off ↦ simp off h
]
loop_step-IsWaiting batch_mode (flush_due env) l h = record { bound = h.bound; timer = h.timer }
loop_step-IsWaiting batch_mode (check_due none) l h = record {
  bound = ground arith;
  timer = ground arith;
}
loop_step-IsWaiting batch_mode (check_due (some free)) l h = record {
  bound = ground arith;
  timer = ground arith;
}

-- the requests that count among those received
abbrev pub counted_in : List LoopEvent → ℕ
counted_in [] = 0
counted_in (received env rs ∷ es) = length (filter is_counted rs) + counted_in es
counted_in (_ ∷ es) = counted_in es

-- Whatever the loop finds ready, in whichever order: after every turn fewer requests wait than a
-- batch has, and the timer of the batch runs exactly while some wait. (It must hold at the start.)
pub loop_run-IsWaiting :
    (batch_mode : Bool) (es : List LoopEvent) (l : Loop)
    → IsWaiting batch_mode l
    → IsWaiting batch_mode (loop_run batch_mode es l)
unfolding loop_run
loop_run-IsWaiting batch_mode [] l h = h
loop_run-IsWaiting batch_mode (e ∷ es) l h =
    loop_run-IsWaiting batch_mode es (loop_step batch_mode e l)
      (loop_step-IsWaiting batch_mode e l h)

-- the counted requests that the loop has handled or holds
abbrev pub counted : Loop → ℕ
counted l = l.server.stat.total_request + length (filter is_counted l.req_list)

handle-total_request :
    (env : Environment) (rs : List DnsRequest) (s : Server)
    → (data_server_handle_dns_request env rs s).stat.total_request
      ≡ (s.stat.total_request + length (filter is_counted rs)) % u64_mod
unfolding data_server_handle_dns_request add_total_request add_total_blocked_request
    add_total_failed_request
handle-total_request env rs s = rw (length-map (filter is_counted rs) domain_data) refl

handle_all-counted :
    (env : Environment) (rs : List DnsRequest) (l : Loop)
    → counted (handle_all env rs l) % u64_mod
      ≡ (l.server.stat.total_request + length (filter is_counted rs)) % u64_mod
handle_all-counted env rs l = omega (arith, handle-total_request env rs l.server)

loop_step-counted :
    (batch_mode : Bool) (e : LoopEvent) (l : Loop)
    → counted (loop_step batch_mode e l) % u64_mod ≡ (counted l + counted_in (e ∷ [])) % u64_mod
unfolding loop_step flush_clients server_check
loop_step-counted batch_mode (received env []) l = omega arith
loop_step-counted batch_mode (received env (r ∷ rs)) l =
    let split = length-append (filter is_counted l.req_list) (filter is_counted (r ∷ rs)) in
    let both = filter-append is_counted l.req_list (r ∷ rs) in
    elim (Bool-cases (batch_mode && ltb (length (l.req_list ++ r ∷ rs)) (batch_size batch_mode))) [
      | inl waits ↦ rw (waits, both) (omega (arith, split))
      | inr full ↦
          rw full (handle_all-counted env (l.req_list ++ r ∷ rs) l ∙ rw both (omega (arith, split)))
    ]
loop_step-counted batch_mode (batch_due env) l = elim (Bool-cases l.batch_timer) [
  | inl on ↦ rw on (handle_all-counted env l.req_list l ∙ omega arith)
  | inr off ↦ simp off (omega arith)
]
loop_step-counted batch_mode (flush_due env) l = omega arith
loop_step-counted batch_mode (check_due none) l = ground arith
loop_step-counted batch_mode (check_due (some free)) l = ground arith

counted_in-cons :
    (e : LoopEvent) (es : List LoopEvent)
    → counted_in (e ∷ es) ≡ counted_in (e ∷ []) + counted_in es
counted_in-cons (received env rs) es = omega arith
counted_in-cons (batch_due env) es = omega arith
counted_in-cons (flush_due env) es = omega arith
counted_in-cons (check_due free) es = omega arith

-- Whatever the loop finds ready, in whichever order: the total of requests, and the requests that
-- still wait, are together those there were and those received since, modulo 2^64; prefetches and
-- dual-stack requests do not count.
pub loop_run-counted :
    (batch_mode : Bool) (es : List LoopEvent) (l : Loop)
    → counted (loop_run batch_mode es l) % u64_mod ≡ (counted l + counted_in es) % u64_mod
unfolding loop_run
loop_run-counted batch_mode [] l = omega arith
loop_run-counted batch_mode (e ∷ es) l =
    loop_run-counted batch_mode es (loop_step batch_mode e l)
    ∙ omega (arith, loop_step-counted batch_mode e l, counted_in-cons e es)
