-- ===== src/Server.antt =====
-- The data server, src/data_server.rs: what it does with the DNS requests that the plugin hands
-- to it. `Loop` is its event loop.
pub mod Handle
pub mod Loop
pub mod Check
use smartdns_plus_ui.Base.Word.{u64_mod}
use smartdns_plus_ui.Base.{
  ℕ, zero, suc, ◌+◌, ◌-◌, ◌*◌, ◌/◌, ◌%◌, Bool, true, false, not, ◌&&◌, ◌||◌, List, [], ◌∷◌, ◌++◌,
  map, Option, none, some, if◌then◌else◌, ◌==◌, ltb, length, filter, Text, codes, text_eq, join,
}
use smartdns_plus_ui.Db.Tables.{DomainData, ClientData, Tables, insert_domain, insert_client}
use smartdns_plus_ui.Stats.{
  DataStatsItem, add_qps_count, add_request_drop, add_total_request, add_total_blocked_request,
  add_total_failed_request,
}

-- what the program asks of a `DnsRequest`
pub record DnsRequest : Type 0 where
  pub is_prefetch_request : Bool
  pub is_dualstack_request : Bool
  pub is_blocked : Bool
  pub is_cached : Bool
  pub rcode : ℕ
  pub domain : Text
  pub qtype : ℕ
  pub remote_addr : Text
  pub remote_mac : List ℕ
  pub group_name : Text
  pub query_timestamp : ℕ
  pub query_time : ℕ
  pub ping_time : ℕ

-- the pending client of an address, with the time it was first seen
pub record Pending : Type 0 where
  pub ip : Text
  pub first_seen : ℕ
  pub client : ClientData

pub record Server : Type 0 where
  pub disable_handle_request : Bool
  pub stat : DataStatsItem
  pub mac_cache : List (Text × Text)
  pub client_pending_list : List Pending
  pub tables : Tables

abbrev pub min_free_disk_space : ℕ
min_free_disk_space = 1024 * 1024 * 8

hex_digit : ℕ → ℕ
hex_digit n = if ltb n 10 then b'0' + n else b'a' + n - 10

-- `format!("{:02x}", byte)` of each byte, joined by colons
unfoldable pub mac_text : List ℕ → Text
unfolding hex_digit join
mac_text mac =
    join (b':' ∷ []) (map (λ byte. hex_digit (byte / 16) ∷ hex_digit (byte % 16) ∷ []) mac)

abbrev pub unknown_mac : Text
unknown_mac = codes "00:00:00:00:00:00"

abbrev pub is_unknown : Text → Bool
is_unknown mac = text_eq mac unknown_mac

-- `HashMap::insert` and `HashMap::get` of `mac_cache`
unfoldable pub cache_insert : Text → Text → List (Text × Text) → List (Text × Text)
cache_insert k v [] = (k, v) ∷ []
cache_insert k v ((j, w) ∷ m) =
    let rest = cache_insert k v m in if text_eq j k then (k, v) ∷ m else (j, w) ∷ rest

unfoldable pub cache_get : Text → List (Text × Text) → Option Text
cache_get k [] = none
cache_get k ((j, v) ∷ m) = if text_eq j k then some v else cache_get k m

-- pass 1: the cache learns from all requests
unfoldable pub learn : List DnsRequest → List (Text × Text) → List (Text × Text)
unfolding cache_insert mac_text
learn [] cache = cache
learn (r ∷ rs) cache =
    let mac = mac_text r.remote_mac in
    learn rs (if is_unknown mac then cache else cache_insert r.remote_addr mac cache)

abbrev pub is_counted : DnsRequest → Bool
is_counted r = not r.is_prefetch_request && not r.is_dualstack_request

unfoldable pub domain_data : DnsRequest → DomainData
domain_data r = record {
  id = 0;
  timestamp = r.query_timestamp;
  domain = r.domain;
  domain_type = r.qtype;
  client = r.remote_addr;
  domain_group = r.group_name;
  reply_code = r.rcode;
  query_time = r.query_time;
  ping_time = r.ping_time;
  is_blocked = r.is_blocked;
  is_cached = r.is_cached;
}

-- the MAC of a request, from the cache where the request has none
unfoldable pub request_mac : List (Text × Text) → DnsRequest → Text
unfolding mac_text cache_get
request_mac cache r =
    let mac = mac_text r.remote_mac in
    if is_unknown mac
    then elim (cache_get r.remote_addr cache) [ none ↦ mac | some cached ↦ cached ]
    else mac

-- the entry of an address: a known MAC and the time are written to it, or it is made
unfoldable pub see_client : ℕ → Text → Text → List Pending → List Pending
see_client now ip mac [] =
    record {
      ip = ip;
      first_seen = now;
      client = record {
        id = 0;
        hostname = [];
        client_ip = ip;
        mac = mac;
        last_query_timestamp = now;
      };
    }
    ∷ []
see_client now ip mac (p ∷ ps) =
    let rest = see_client now ip mac ps in
    if text_eq p.ip ip
    then record p {
      client = record p.client {
        mac = if is_unknown mac then p.client.mac else mac;
        last_query_timestamp = now;
      };
    }
      ∷ ps
    else p ∷ rest

-- pass 2: the pending list sees the counted requests
unfoldable pub see_clients : ℕ → List (Text × Text) → List DnsRequest → List Pending → List Pending
unfolding see_client request_mac
see_clients now cache [] ps = ps
see_clients now cache (r ∷ rs) ps =
    see_clients now cache rs
      (if is_counted r then see_client now r.remote_addr (request_mac cache r) ps else ps)

-- An entry is handed on when its MAC is known or when it is older than `age`. The subtraction of
-- the u64 times wraps around where the clock was set back. A map has no order: the model keeps
-- the order in which the addresses were first seen.
abbrev pub is_due : ℕ → ℕ → Pending → Bool
is_due age now p =
    ltb age ((now + u64_mod - p.first_seen) % u64_mod) || not (is_unknown p.client.mac)

unfoldable pub take_due : ℕ → ℕ → List Pending → List ClientData × List Pending
take_due age now ps =
    (map (λ p. p.client) (filter (is_due age now) ps), filter (λ p. not (is_due age now p)) ps)

-- What the database does with a batch: which rows it refuses, and whether its two transactions
-- can commit; and the time, and the local offset, when it is handled.
pub record Environment : Type 0 where
  pub now : ℕ
  pub local_offset : ℕ
  pub domain_fails : DomainData → Bool
  pub domain_commits : Bool
  pub client_fails : ClientData → Bool
  pub client_commits : Bool

abbrev pub count_by : (DnsRequest → Bool) → List DnsRequest → ℕ
count_by p rs = length (filter (λ r. is_counted r && p r) rs)

-- the queries are written first, and the clients only where that succeeded
unfoldable pub write_batch : Environment → List DomainData → List ClientData → Tables → Tables
write_batch env ds cs t =
    let result = insert_domain env.domain_fails env.domain_commits env.local_offset ds t in
    if result.1 then (insert_client env.client_fails env.client_commits cs result.0).0 else result.0

unfoldable pub data_server_handle_dns_request : Environment → List DnsRequest → Server → Server
unfolding learn see_clients take_due write_batch
data_server_handle_dns_request env rs s =
    let cache = learn rs (if ltb 10000 (length s.mac_cache) then [] else s.mac_cache) in
    let due = take_due 3000 env.now (see_clients env.now cache rs s.client_pending_list) in
    let ds = map domain_data (filter is_counted rs) in
    let stat = add_total_failed_request (count_by (λ r. not (r.rcode == 0)) rs) (
      add_total_blocked_request (count_by (λ r. r.is_blocked) rs)
        (add_total_request (length ds) s.stat)) in
    record s {
      stat = stat;
      mac_cache = cache;
      client_pending_list = due.1;
      tables = write_batch env ds due.0 s.tables;
    }

-- the arm of `client_flush_timer`
unfoldable pub flush_clients : Environment → Server → Server
unfolding take_due
flush_clients env s =
    let due = take_due 10000 env.now s.client_pending_list in
    record s {
      client_pending_list = due.1;
      tables = (insert_client env.client_fails env.client_commits due.0 s.tables).0;
    }

-- the end of the loop: all that is pending is written
unfoldable pub drain_clients : Environment → Server → Server
drain_clients env s = record s {
  client_pending_list = [];
  tables =
      (insert_client env.client_fails env.client_commits (map (λ p. p.client) s.client_pending_list)
        s.tables).0;
}

unfoldable pub server_check : ℕ → Server → Server
server_check free_disk_space s =
    if ltb free_disk_space min_free_disk_space
    then (if s.disable_handle_request then s else record s { disable_handle_request = true })
    else if not s.disable_handle_request
    then s
    else record s { disable_handle_request = false }

-- the channel of requests
abbrev pub data_capacity : ℕ
data_capacity = 1024 * 256

-- `DataServerControl::send_request`: the server, the channel, and whether it returned `Ok`. `is_open`
-- tells whether the loop still holds the receiver of the channel: where it does not, `try_send` fails.
unfoldable pub send_request :
    Bool → DnsRequest → Server × List DnsRequest → Server × List DnsRequest × Bool
unfolding add_qps_count add_request_drop
send_request is_open r (s, queue) =
    let counted = record s { stat = add_qps_count 1 s.stat } in
    if r.is_prefetch_request
    then (s, queue, true)
    else if s.disable_handle_request
    then (counted, queue, true)
    else if is_open && ltb (length queue) data_capacity
    then (counted, queue ++ r ∷ [], true)
    else (record s { stat = add_request_drop 1 (add_qps_count 1 s.stat) }, queue, false)
