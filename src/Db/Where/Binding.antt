-- ===== src/Db/Where/Binding.antt =====
-- Every placeholder of the list queries has exactly one bound value (src/db.rs).
use smartdns_plus_ui.Base.{
  ℕ, ◌+◌, Bool, true, false, not, ◌||◌, List, [], ◌∷◌, ◌++◌, ◌≡◌, refl, ◌∙◌, arith, Option, none,
  some, if◌then◌else◌, ◌==◌, length, length-append, Text, codes, join,
}
use smartdns_plus_ui.Db.Param.{DomainListGetParam, ClientListGetParam}
use smartdns_plus_ui.Base.Word.{to_string}
use smartdns_plus_ui.Db.Where.{
  ◌>>=◌, Result, ok, err, Builder, bind, state, equals, equals_id_first, number, read_order,
  read_direction, domain_filter, time_bound, cursor_bound, flag, where_clause, domain_columns,
  domain_bounds, domain_builder, cursor_id, cursor_direction, get_domain_sql_where,
  client_conditions, get_client_sql_where, domain_order, client_order, no_conditions,
  client_cursor_id, client_cursor_direction,
}

abbrev pub placeholders : Text → ℕ
placeholders [] = 0
placeholders (c ∷ s) = (if c == b'?' then 1 else 0) + placeholders s

abbrev placeholders_in : List Text → ℕ
placeholders_in [] = 0
placeholders_in (t ∷ ts) = placeholders t + placeholders_in ts

pub placeholders-append : (a b : Text) → placeholders (a ++ b) ≡ placeholders a + placeholders b
placeholders-append [] b = omega arith
placeholders-append (c ∷ a) b = omega (arith, placeholders-append a b)

placeholders_in-append :
    (a b : List Text) → placeholders_in (a ++ b) ≡ placeholders_in a + placeholders_in b
placeholders_in-append [] b = omega arith
placeholders_in-append (c ∷ a) b = omega (arith, placeholders_in-append a b)

placeholders-join : (cs : List Text) → placeholders (join (codes " AND ") cs) ≡ placeholders_in cs
unfolding join
placeholders-join [] = refl
placeholders-join (c ∷ []) = omega arith
placeholders-join (c ∷ d ∷ cs) =
    placeholders-append (c ++ codes " AND ") (join (codes " AND ") (d ∷ cs))
    ∙ omega (arith, placeholders-append c (codes " AND "), placeholders-join (d ∷ cs))

placeholders-where_clause : (cs : List Text) → placeholders (where_clause cs) ≡ placeholders_in cs
unfolding where_clause
placeholders-where_clause [] = refl
placeholders-where_clause (c ∷ cs) =
    placeholders-append (codes " WHERE ") (join (codes " AND ") (c ∷ cs))
    ∙ omega (arith, placeholders-join (c ∷ cs))

-- the placeholders of the conditions are as many as the values
abbrev IsBound : Builder → Type 0
IsBound b = placeholders_in b.sql_where ≡ length b.sql_param

bind-IsBound :
    (clause v : Text) (b : Builder)
    → placeholders clause ≡ 1
    → IsBound b
    → IsBound (bind clause v b)
bind-IsBound clause v b one h =
    omega
      (arith, placeholders_in-append b.sql_where (clause ∷ []), length-append b.sql_param (v ∷ []))

state-IsBound :
    (clause : Text) (b : Builder) → placeholders clause ≡ 0 → IsBound b → IsBound (state clause b)
state-IsBound clause b zero h = omega (arith, placeholders_in-append b.sql_where (clause ∷ []))

equals-IsBound :
    (clause : Text) (v : Option Text) (b : Builder)
    → placeholders clause ≡ 1
    → IsBound b
    → IsBound (equals clause v b)
unfolding equals
equals-IsBound clause none b one h = h
equals-IsBound clause (some v) b one h = bind-IsBound clause v b one h

equals_id_first-IsBound :
    (clause : Text) (v : Option Text) (b : Builder)
    → placeholders clause ≡ 1
    → IsBound b
    → IsBound (equals_id_first clause v b)
unfolding equals_id_first
equals_id_first-IsBound clause none b one h = h
equals_id_first-IsBound clause (some v) b one h = bind-IsBound clause v b one h

domain_filter-IsBound :
    (d m : Option Text) (b b' : Builder) → IsBound b → domain_filter d m b ≡ ok b' → IsBound b'
unfolding domain_filter
domain_filter-IsBound none m b b' h e = ground arith
domain_filter-IsBound (some v) none b b' h e =
    ground (arith, bind-IsBound (codes "domain = ?") v b refl h)
domain_filter-IsBound (some v) (some m) b b' h e = ground (
  arith,
  bind-IsBound (codes "domain LIKE ?") (v ++ codes "%") b refl h,
  bind-IsBound (codes "domain LIKE ?") (codes "%" ++ v) b refl h,
  bind-IsBound (codes "domain LIKE ?") (codes "%" ++ (v ++ codes "%")) b refl h,
  bind-IsBound (codes "domain = ?") v b refl h,
  state-IsBound (codes "domain IS NOT NULL AND domain <> ''") b refl h,
)

time_bound-IsBound :
    (by_id by_time : Text) (towards : Bool) (i t : Option ℕ) (b : Builder)
    → placeholders by_id ≡ 1
    → placeholders by_time ≡ 1
    → IsBound b
    → IsBound (time_bound by_id by_time towards i t b)
unfolding time_bound
time_bound-IsBound by_id by_time towards i none b o p h = h
time_bound-IsBound by_id by_time towards none (some t) b o p h = bind-IsBound by_time _ b p h
time_bound-IsBound by_id by_time true (some i) (some t) b o p h = bind-IsBound by_id _ b o h
time_bound-IsBound by_id by_time false (some i) (some t) b o p h = bind-IsBound by_time _ b p h

cursor_bound-IsBound :
    (prev desc : Bool) (i : Option ℕ) (b : Builder)
    → IsBound b
    → IsBound (cursor_bound prev desc i b)
unfolding cursor_bound
cursor_bound-IsBound prev desc none b h = h
cursor_bound-IsBound prev desc (some i) b h = ground (
  arith,
  bind-IsBound (codes "id < ?") (to_string i) b refl h,
  bind-IsBound (codes "id > ?") (to_string i) b refl h,
)

flag-IsBound :
    (on off : Text) (v : Option Bool) (b : Builder)
    → placeholders on ≡ 0
    → placeholders off ≡ 0
    → IsBound b
    → IsBound (flag on off v b)
unfolding flag
flag-IsBound on off none b o p h = h
flag-IsBound on off (some true) b o p h = state-IsBound on b o h
flag-IsBound on off (some false) b o p h = state-IsBound off b p h

domain_columns-IsBound :
    (param : DomainListGetParam) (b : Builder) → IsBound b → IsBound (domain_columns param b)
unfolding domain_columns
domain_columns-IsBound param b h =
    equals_id_first-IsBound (codes "reply_code = ?") (number param.reply_code) _ refl (
      equals_id_first-IsBound (codes "domain_group = ?") param.domain_group _ refl (
        equals_id_first-IsBound (codes "client = ?") param.client _ refl
          (equals_id_first-IsBound (codes "domain_type = ?") (number param.domain_type) b refl h)))

domain_bounds-IsBound :
    (param : DomainListGetParam) (prev desc : Bool) (b : Builder)
    → IsBound b
    → IsBound (domain_bounds param prev desc b)
unfolding domain_bounds
domain_bounds-IsBound param prev desc b h =
    flag-IsBound (codes "is_cached = 1") (codes "is_cached = 0") param.is_cached _ refl refl (
      flag-IsBound (codes "is_blocked = 1") (codes "is_blocked = 0") param.is_blocked _ refl refl (
        cursor_bound-IsBound prev desc (cursor_id param.cursor) _ (
          time_bound-IsBound (codes "id > ?") (codes "timestamp >= ?") (not desc || prev)
            (cursor_id param.cursor) param.timestamp_after _ refl refl
            (time_bound-IsBound (codes "id < ?") (codes "timestamp <= ?") (desc || prev)
              (cursor_id param.cursor) param.timestamp_before b refl refl h))))

client_conditions-IsBound :
    (param : ClientListGetParam) (prev desc : Bool) → IsBound (client_conditions param prev desc)
unfolding client_conditions
client_conditions-IsBound param prev desc =
    cursor_bound-IsBound prev desc (client_cursor_id param.cursor) _ (
      time_bound-IsBound (codes "id > ?") (codes "last_query_timestamp >= ?") (not desc || prev)
        (client_cursor_id param.cursor) param.timestamp_after _ refl refl
        (time_bound-IsBound (codes "id < ?") (codes "last_query_timestamp <= ?") (desc || prev)
          (client_cursor_id param.cursor) param.timestamp_before _ refl refl
          (equals-IsBound (codes "hostname = ?") param.hostname _ refl (
            equals-IsBound (codes "mac = ?") param.mac _ refl (
              equals-IsBound (codes "client_ip = ?") param.client_ip _ refl (
                equals_id_first-IsBound (codes "id = ?") (number param.id) (no_conditions false)
                  refl refl))))))

bind-eq-ok {ℓ κ} :
    {A : Type ℓ} {B : Type κ} (first : Result A) (next : A → Result B) {built : B}
    → (first >>= next) ≡ ok built
    → (v : A) × (next v ≡ ok built) × (first ≡ ok v)
bind-eq-ok (ok v) next done = (v, done, refl)
bind-eq-ok (err e) next done = cc

domain_builder-IsBound :
    (param : DomainListGetParam) {built : Builder × Bool × Bool}
    → domain_builder param ≡ ok built
    → IsBound built.0
unfolding domain_builder
domain_builder-IsBound param {built} h =
    let (prev, h₁, _) = bind-eq-ok (read_order param.order) _ h in
    let (desc, h₂, _) = bind-eq-ok (read_direction (cursor_direction param.cursor)) _ h₁ in
    let start = equals_id_first (codes "id = ?") (number param.id) (no_conditions true) in
    let (b, h₃, e) = bind-eq-ok (domain_filter param.domain param.domain_filter_mode start) _ h₂ in
    let filtered =
      domain_filter-IsBound param.domain param.domain_filter_mode start b
        (equals_id_first-IsBound (codes "id = ?") (number param.id) (no_conditions true) refl refl)
        e in
    ground (
      arith,
      domain_bounds-IsBound param prev desc (domain_columns param b)
          (domain_columns-IsBound param b filtered),
    )

-- Whatever the parameters of a domain list, the WHERE clause that is built has exactly as many
-- placeholders as values are bound to it.
pub get_domain_sql_where-binds :
    (param : Option DomainListGetParam) {sql : Text × Text × List Text}
    → get_domain_sql_where param ≡ ok sql
    → placeholders sql.0 ≡ length sql.2
unfolding get_domain_sql_where
get_domain_sql_where-binds none h = ground arith
get_domain_sql_where-binds (some param) h =
    let (built, r, e) = bind-eq-ok (domain_builder param) _ h in
    ground (arith, placeholders-where_clause built.0.sql_where, domain_builder-IsBound param e)

-- Whatever the parameters of a client list, the WHERE clause that is built has exactly as many
-- placeholders as values are bound to it.
pub get_client_sql_where-binds :
    (param : Option ClientListGetParam) {sql : Text × Text × List Text}
    → get_client_sql_where param ≡ ok sql
    → placeholders sql.0 ≡ length sql.2
unfolding get_client_sql_where
get_client_sql_where-binds none h = ground arith
get_client_sql_where-binds (some param) h =
    let (prev, h₁, _) = bind-eq-ok (read_order param.order) _ h in
    let (desc, h₂, _) = bind-eq-ok (read_direction (client_cursor_direction param.cursor)) _ h₁ in
    ground (
      arith,
      placeholders-where_clause (client_conditions param prev desc).sql_where,
      client_conditions-IsBound param prev desc,
    )

placeholders-domain_order : (desc first : Bool) → placeholders (domain_order desc first) ≡ 0
placeholders-domain_order true true = refl
placeholders-domain_order true false = refl
placeholders-domain_order false true = refl
placeholders-domain_order false false = refl

placeholders-client_order : (desc first : Bool) → placeholders (client_order desc first) ≡ 0
placeholders-client_order true true = refl
placeholders-client_order true false = refl
placeholders-client_order false true = refl
placeholders-client_order false false = refl

-- no value is bound to the ORDER BY clause
pub get_domain_sql_where_order :
    (param : Option DomainListGetParam) {sql : Text × Text × List Text}
    → get_domain_sql_where param ≡ ok sql
    → placeholders sql.1 ≡ 0
unfolding get_domain_sql_where
get_domain_sql_where_order none h = ground arith
get_domain_sql_where_order (some param) h =
    let (built, r, e) = bind-eq-ok (domain_builder param) _ h in
    let desc = if built.1 then not built.2 else built.2 in
    ground (arith, placeholders-domain_order desc built.0.order_timestamp_first)

pub get_client_sql_where_order :
    (param : Option ClientListGetParam) {sql : Text × Text × List Text}
    → get_client_sql_where param ≡ ok sql
    → placeholders sql.1 ≡ 0
unfolding get_client_sql_where
get_client_sql_where_order none h = ground arith
get_client_sql_where_order (some param) h =
    let (prev, h₁, _) = bind-eq-ok (read_order param.order) _ h in
    let (desc, h₂, _) = bind-eq-ok (read_direction (client_cursor_direction param.cursor)) _ h₁ in
    ground (
      arith,
      placeholders-client_order desc (client_conditions param prev desc).order_timestamp_first,
    )
