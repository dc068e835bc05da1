-- ===== src/Server/Handle.antt =====
-- The pending clients of `data_server_handle_dns_request` (src/data_server.rs).
use smartdns_plus_ui.Base.{
  ℕ, ◌+◌, ◌%◌, length, length-map, Bool, true, false, not, ◌&&◌, ◌||◌, List, [], ◌∷◌, ◌≡◌, refl, ap,
  ◌∙◌, arith, filter, map, all, any, Text, text_eq, text_eq_iff, text_eq_refl, Bool-cases, inl, inr,
}
use smartdns_plus_ui.Base.Word.{u64_mod}
use smartdns_plus_ui.Db.Tables.{DomainData, ClientData, Tables, insert_domain, insert_client}
use smartdns_plus_ui.Db.Tables.Counts.{insert_domain_lem, insert_domain_accepted}
use smartdns_plus_ui.Stats.{add_total_request, add_total_blocked_request, add_total_failed_request}
use smartdns_plus_ui.Server.{
  Server, Environment, domain_data, data_server_handle_dns_request, write_batch, DnsRequest,
  Pending, is_counted, is_due, request_mac, see_client, see_clients, take_due,
}

-- `ip` has an entry in the pending list, is the address of a client that is handed on, is asked for
abbrev pub is_pending : Text → List Pending → Bool
is_pending ip ps = any (λ p. text_eq p.ip ip) ps

abbrev pub is_handed_on : Text → List ClientData → Bool
is_handed_on ip cs = any (λ c. text_eq c.client_ip ip) cs

abbrev pub is_asked : Text → List DnsRequest → Bool
is_asked ip rs = any (λ r. is_counted r && text_eq r.remote_addr ip) rs

-- each entry stands under the address of its client
abbrev pub is_keyed : List Pending → Bool
is_keyed ps = all (λ p. text_eq p.client.client_ip p.ip) ps

and-eq-true : (a b : Bool) → a && b ≡ true → (a ≡ true) × (b ≡ true)
and-eq-true a b h = ground arith

is_pending-see_client :
    (ip : Text) (now : ℕ) (addr mac : Text) (ps : List Pending)
    → is_pending ip (see_client now addr mac ps) ≡ is_pending ip ps || text_eq addr ip
unfolding see_client
is_pending-see_client ip now addr mac [] = ground arith
is_pending-see_client ip now addr mac (p ∷ ps) = elim (Bool-cases (text_eq p.ip addr)) [
  | inl same ↦
      rw same (ground (arith, ap (λ (t : Text). text_eq t ip) ((text_eq_iff p.ip addr).0 same)))
  | inr other ↦ rw other (ground (arith, is_pending-see_client ip now addr mac ps))
]

is_keyed-see_client :
    (now : ℕ) (addr mac : Text) (ps : List Pending)
    → is_keyed ps ≡ true
    → is_keyed (see_client now addr mac ps) ≡ true
unfolding see_client
is_keyed-see_client now addr mac [] h = rw text_eq_refl refl
is_keyed-see_client now addr mac (p ∷ ps) h = ground (arith, is_keyed-see_client now addr mac ps)

is_pending-see_clients :
    (ip : Text) (now : ℕ) (cache : List (Text × Text)) (rs : List DnsRequest) (ps : List Pending)
    → is_pending ip (see_clients now cache rs ps) ≡ is_pending ip ps || is_asked ip rs
unfolding see_clients
is_pending-see_clients ip now cache [] ps = ground arith
is_pending-see_clients ip now cache (r ∷ rs) ps = elim (Bool-cases (is_counted r)) [
  | inl here ↦ rw here (
      ground (
        arith,
        is_pending-see_clients ip now cache rs
            (see_client now r.remote_addr (request_mac cache r) ps),
        is_pending-see_client ip now r.remote_addr (request_mac cache r) ps,
      ))
  | inr skipped ↦ rw skipped (is_pending-see_clients ip now cache rs ps)
]

is_keyed-see_clients :
    (now : ℕ) (cache : List (Text × Text)) (rs : List DnsRequest) (ps : List Pending)
    → is_keyed ps ≡ true
    → is_keyed (see_clients now cache rs ps) ≡ true
unfolding see_clients
is_keyed-see_clients now cache [] ps h = h
is_keyed-see_clients now cache (r ∷ rs) ps h = elim (Bool-cases (is_counted r)) [
  | inl here ↦ rw here (
      is_keyed-see_clients now cache rs (see_client now r.remote_addr (request_mac cache r) ps)
        (is_keyed-see_client now r.remote_addr (request_mac cache r) ps h))
  | inr skipped ↦ rw skipped (is_keyed-see_clients now cache rs ps h)
]

-- an address that is pending is pending still or handed on, whichever entries are due
any-split :
    (ip : Text) (due : Pending → Bool) (ps : List Pending)
    → is_keyed ps ≡ true
    → is_handed_on ip (map (λ p. p.client) (filter due ps))
        || is_pending ip (filter (λ p. not (due p)) ps)
      ≡ is_pending ip ps
any-split ip due [] h = refl
any-split ip due (p ∷ ps) h =
    let (key, rest) = and-eq-true (text_eq p.client.client_ip p.ip) (is_keyed ps) h in
    let ih = any-split ip due ps rest in
    let same : text_eq p.client.client_ip ip ≡ text_eq p.ip ip =
      ap (λ (t : Text). text_eq t ip) ((text_eq_iff p.client.client_ip p.ip).0 key) in
    elim (Bool-cases (due p)) [
      | inl now_due ↦ rw now_due (ground (arith, ih, same))
      | inr kept ↦ rw kept (ground (arith, ih))
    ]

all-filter : (q : Pending → Bool) (ps : List Pending) → all q (filter q ps) ≡ true
all-filter q [] = refl
all-filter q (p ∷ ps) = elim (Bool-cases (q p)) [
  | inl kept ↦ ground (arith, kept, all-filter q ps)
  | inr dropped ↦ rw dropped (all-filter q ps)
]

-- After a batch every address that was pending, and every one that a counted request came from, is
-- pending or belongs to a client that is handed on to the database, and no other address is; and
-- no entry that is left is due: its MAC is unknown and it is not older than `age`. The entries
-- stand under the addresses of their clients, before and after.
pub see_clients-take_due :
    (ip : Text) (age now : ℕ) (cache : List (Text × Text)) (rs : List DnsRequest)
    (ps : List Pending)
    → is_keyed ps ≡ true
    → (let seen = see_clients now cache rs ps in
        let (handed, left) = take_due age now seen in
        (is_handed_on ip handed || is_pending ip left ≡ is_pending ip ps || is_asked ip rs)
        × (all (λ p. not (is_due age now p)) left ≡ true)
        × (is_keyed seen ≡ true))
unfolding take_due
see_clients-take_due ip age now cache rs ps h =
    let keyed = is_keyed-see_clients now cache rs ps h in
    (
      any-split ip (is_due age now) (see_clients now cache rs ps) keyed
          ∙ is_pending-see_clients ip now cache rs ps,
      all-filter (λ p. not (is_due age now p)) (see_clients now cache rs ps),
      keyed,
    )

insert_client-domain :
    (fails : ClientData → Bool) (commits : Bool) (cs : List ClientData) (t : Tables)
    → (insert_client fails commits cs t).0.domain ≡ t.domain
unfolding insert_client
insert_client-domain fails commits cs t = ground arith

write_batch-domain :
    (env : Environment) (ds : List DomainData) (cs : List ClientData) (t : Tables)
    → (write_batch env ds cs t).domain
      ≡ (insert_domain env.domain_fails env.domain_commits env.local_offset ds t).0.domain
unfolding write_batch
write_batch-domain env ds cs t =
    let written = insert_domain env.domain_fails env.domain_commits env.local_offset ds t in
    elim (Bool-cases written.1) [
      | inl done ↦ rw done (insert_client-domain env.client_fails env.client_commits cs written.0)
      | inr refused ↦ rw refused
    ]

-- Where the database refuses none of the rows of a batch and commits, the table of domains and the
-- total of requests (modulo 2^64) both grow by the number of requests that are neither prefetches
-- nor dual-stack requests, whatever becomes of the clients.
pub handle_rows :
    (env : Environment) (rs : List DnsRequest) (s : Server)
    → any env.domain_fails (map domain_data (filter is_counted rs)) ≡ false
    → env.domain_commits ≡ true
    → (let s' = data_server_handle_dns_request env rs s in
        (length s'.tables.domain ≡ length s.tables.domain + length (filter is_counted rs))
        × (s'.stat.total_request
            ≡ (s.stat.total_request + length (filter is_counted rs)) % u64_mod))
unfolding data_server_handle_dns_request add_total_request add_total_blocked_request
    add_total_failed_request
handle_rows env rs s h c =
    let ds = map domain_data (filter is_counted rs) in
    let as_many = length-map (filter is_counted rs) domain_data in
    let done = insert_domain_accepted env.domain_fails env.local_offset ds s.tables h in
    let rows = insert_domain_lem env.domain_fails true env.local_offset ds s.tables in
    (
      ap (λ (rows : List DomainData). length rows) (write_batch-domain env ds _ s.tables)
          ∙ rw c (rows.0 ∙ rw (done, as_many) refl),
      rw as_many refl,
    )
