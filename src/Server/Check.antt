-- ===== src/Server/Check.antt =====
-- When requests are taken, and when they are refused (src/data_server.rs).
use smartdns_plus_ui.Base.{
  ℕ, ◌+◌, ◌%◌, ◌≡◌, arith, Bool, not, ◌&&◌, List, [], ◌∷◌, ◌++◌, if◌then◌else◌, ltb, length,
}
use smartdns_plus_ui.Base.Word.{u32_mod}
use smartdns_plus_ui.Server.{
  DnsRequest, Server, min_free_disk_space, server_check, data_capacity, send_request,
}

-- A request that is sent after a check of the disk reaches the channel exactly when it is no
-- prefetch, the disk has the room asked for, and the channel is open and not full. The call fails
-- exactly where the channel should have taken the request and is closed or full; and every request
-- but a prefetch counts for the rate.
pub send_request-check :
    (is_open : Bool) (r : DnsRequest) (s : Server) (queue : List DnsRequest) (free : ℕ)
    → (let sent = send_request is_open r (server_check free s, queue) in
        let taken =
          not r.is_prefetch_request
          && not (ltb free min_free_disk_space)
          && (is_open && ltb (length queue) data_capacity) in
        (sent.1 ≡ (if taken then queue ++ r ∷ [] else queue))
        × (sent.2
            ≡ not (
                not r.is_prefetch_request
                && not (ltb free min_free_disk_space)
                && not (is_open && ltb (length queue) data_capacity)))
        × (sent.0.stat.qps_count ≡ (
            if r.is_prefetch_request then s.stat.qps_count else (s.stat.qps_count + 1) % u32_mod))
        × (sent.0.tables ≡ s.tables))
unfolding send_request server_check
send_request-check is_open r s queue free = ground arith
