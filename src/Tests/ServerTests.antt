-- ===== src/Tests/ServerTests.antt =====
-- The data server of src/data_server.rs on small inputs.
use smartdns_plus_ui.Base.{
  none, some, ◌+◌, ◌%◌, length, filter, ◌≡◌, refl, arith, true, false, not, ◌&&◌, ◌||◌, List, [],
  ◌∷◌, if◌then◌else◌, ltb, all, codes, text_eq,
}
use smartdns_plus_ui.Base.Word.{u32_mod, u64_mod}
use smartdns_plus_ui.Stats.{new_item}
use smartdns_plus_ui.Server.{
  DnsRequest, Pending, Server, Environment, min_free_disk_space, data_capacity, unknown_mac,
  see_clients, take_due, is_due, is_counted, data_server_handle_dns_request, server_check,
  send_request,
}
use smartdns_plus_ui.Server.Check.{send_request-check}
use smartdns_plus_ui.Server.Handle.{
  is_pending, is_handed_on, is_asked, is_keyed, see_clients-take_due, handle_rows,
}
use smartdns_plus_ui.Server.Loop.{
  Loop, LoopEvent, received, batch_due, flush_due, check_due, batch_size, loop_run,
}
use smartdns_plus_ui.Server.Loop.Runs.{IsWaiting, counted, loop_run-IsWaiting, loop_run-counted}

abbrev request : DnsRequest
request = record {
  is_prefetch_request = false;
  is_dualstack_request = false;
  is_blocked = false;
  is_cached = true;
  rcode = 0;
  domain = codes "a.example";
  qtype = 1;
  remote_addr = codes "10.0.0.2";
  remote_mac = 0 ∷ 0 ∷ 0 ∷ 0 ∷ 0 ∷ 0 ∷ [];
  group_name = [];
  query_timestamp = 1700000000000;
  query_time = 12;
  ping_time = 0;
}

abbrev prefetch : DnsRequest
prefetch = record request { is_prefetch_request = true; remote_addr = codes "10.0.0.9" }

abbrev idle : Server
idle = record {
  disable_handle_request = false;
  stat = new_item;
  mac_cache = [];
  client_pending_list = [];
  tables = record {
    next_id = 1;
    domain = [];
    domain_hourly_count = [];
    domain_daily_count = [];
    client = [];
  };
}

abbrev healthy : Environment
healthy = record {
  now = 1700000000500;
  local_offset = 0;
  domain_fails = λ d. false;
  domain_commits = true;
  client_fails = λ c. false;
  client_commits = true;
}

send_request-check_example :
    (let sent = send_request true request (server_check 4096 idle, []) in
      let taken = true && not (ltb 4096 min_free_disk_space) && (true && ltb 0 data_capacity) in
      (sent.1 ≡ (if taken then request ∷ [] else []))
      × (sent.2
          ≡ not (true && not (ltb 4096 min_free_disk_space) && not (true && ltb 0 data_capacity)))
      × (sent.0.stat.qps_count ≡ 1 % u32_mod)
      × (sent.0.tables ≡ idle.tables))
send_request-check_example = send_request-check true request idle [] 4096

abbrev old_client : Pending
old_client = record {
  ip = codes "10.0.0.3";
  first_seen = 1699999990000;
  client = record {
    id = 0;
    hostname = [];
    client_ip = codes "10.0.0.3";
    mac = unknown_mac;
    last_query_timestamp = 1699999990000;
  };
}

old_client-is_keyed : is_keyed (old_client ∷ []) ≡ true
unfolding text_eq
old_client-is_keyed = refl

see_clients-take_due_example :
    (let seen = see_clients 1700000000500 [] (request ∷ prefetch ∷ []) (old_client ∷ []) in
      let (handed, left) = take_due 3000 1700000000500 seen in
      (is_handed_on (codes "10.0.0.2") handed || is_pending (codes "10.0.0.2") left
        ≡ is_pending (codes "10.0.0.2") (old_client ∷ [])
          || is_asked (codes "10.0.0.2") (request ∷ prefetch ∷ []))
      × (all (λ p. not (is_due 3000 1700000000500 p)) left ≡ true)
      × (is_keyed seen ≡ true))
see_clients-take_due_example =
    see_clients-take_due (codes "10.0.0.2") 3000 1700000000500 [] (request ∷ prefetch ∷ [])
      (old_client ∷ []) old_client-is_keyed

abbrev started : Loop
started = record {
  server = idle;
  req_list = [];
  batch_timer = false;
  is_check_timer_running = false;
}

started-IsWaiting : IsWaiting true started
unfolding batch_size
started-IsWaiting = record { bound = omega arith; timer = refl }

abbrev some_events : List LoopEvent
some_events =
    received healthy (request ∷ prefetch ∷ [])
    ∷ check_due none
    ∷ check_due (some 0)
    ∷ batch_due healthy
    ∷ received healthy (request ∷ [])
    ∷ flush_due healthy
    ∷ []

loop_run-IsWaiting_example : IsWaiting true (loop_run true some_events started)
loop_run-IsWaiting_example = loop_run-IsWaiting true some_events started started-IsWaiting

loop_run-counted_example : counted (loop_run true some_events started) % u64_mod ≡ 2 % u64_mod
loop_run-counted_example = loop_run-counted true some_events started

handle_rows_example :
    (let s' = data_server_handle_dns_request healthy (request ∷ prefetch ∷ request ∷ []) idle in
      (length s'.tables.domain
        ≡ length idle.tables.domain
          + length (filter is_counted (request ∷ prefetch ∷ request ∷ [])))
      × (s'.stat.total_request
          ≡ (idle.stat.total_request
              + length (filter is_counted (request ∷ prefetch ∷ request ∷ [])))
            % u64_mod))
handle_rows_example = handle_rows healthy (request ∷ prefetch ∷ request ∷ []) idle refl refl
