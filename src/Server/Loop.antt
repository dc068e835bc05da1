-- ===== src/Server/Loop.antt =====
-- The event loop `data_server_loop` (src/data_server.rs): one step for each arm of its `select!`.
pub mod Runs
use smartdns_plus_ui.Base.{
  ℕ, ◌*◌, Bool, true, false, ◌&&◌, List, [], ◌∷◌, ◌++◌, Option, none, some, if◌then◌else◌, ltb,
  length,
}
use smartdns_plus_ui.Server.{
  DnsRequest, Server, Environment, data_server_handle_dns_request, flush_clients, drain_clients,
  server_check,
}

-- the variables of the loop; of the timer only whether there is one
pub record Loop : Type 0 where
  pub server : Server
  pub req_list : List DnsRequest
  pub batch_timer : Bool
  pub is_check_timer_running : Bool

-- What `select!` can find ready: requests that `recv_many` took, the timer of the batch, the
-- timer of the pending clients, and that of the check: with the free disk space that it finds, or
-- `none` where `call_blocking` returns an error, since the check has panicked.
pub data LoopEvent : Type 0 where
  received : Environment → List DnsRequest → LoopEvent
  batch_due : Environment → LoopEvent
  flush_due : Environment → LoopEvent
  check_due : Option ℕ → LoopEvent

unfoldable pub batch_size : Bool → ℕ
batch_size batch_mode = if batch_mode then 1024 * 8 else 1

abbrev pub handle_all : Environment → List DnsRequest → Loop → Loop
handle_all env rs l = record l {
  server = data_server_handle_dns_request env rs l.server;
  req_list = [];
  batch_timer = false;
}

-- One turn of the loop. `fetch_xor` turns the flag of the check around, and the check itself clears
-- it at its end, so that it stays set where the check did not end. The arm of the batch timer is
-- only waited for while there is one; and where some requests came the list is not empty, so that a
-- batch that has no timer gets one.
unfoldable pub loop_step : Bool → LoopEvent → Loop → Loop
loop_step batch_mode (received env []) l = l
loop_step batch_mode (received env (r ∷ rs)) l =
    let req_list = l.req_list ++ r ∷ rs in
    if batch_mode && ltb (length req_list) (batch_size batch_mode)
    then record l { req_list = req_list; batch_timer = true }
    else handle_all env req_list l
loop_step batch_mode (batch_due env) l = if l.batch_timer then handle_all env l.req_list l else l
loop_step batch_mode (flush_due env) l = record l { server = flush_clients env l.server }
loop_step batch_mode (check_due found) l =
    if l.is_check_timer_running then record l { is_check_timer_running = false } else elim found [
      | none ↦ record l { is_check_timer_running = true }
      | some free_disk_space ↦ record l {
        server = server_check free_disk_space l.server;
        is_check_timer_running = false;
      }
    ]

unfoldable pub loop_run : Bool → List LoopEvent → Loop → Loop
loop_run batch_mode [] l = l
loop_run batch_mode (e ∷ es) l = loop_run batch_mode es (loop_step batch_mode e l)

-- the whole loop, up to the notification that ends it: what is left of the list is dropped
unfoldable pub data_server_loop : Bool → List LoopEvent → Environment → Server → Server
data_server_loop batch_mode es env s =
    let start : Loop = record {
      server = s;
      req_list = [];
      batch_timer = false;
      is_check_timer_running = false;
    } in
    drain_clients env (loop_run batch_mode es start).server
