-- ===== src/Db/Tables/Clients.antt =====
-- The client table keeps one row for each pair of address and MAC (`insert_client`, src/db.rs).
use smartdns_plus_ui.Base.{
  ◌+◌, Bool, true, false, not, ◌&&◌, ◌||◌, List, [], ◌∷◌, ◌++◌, ◌≡◌, inl, inr, refl, sym, ap₂, ◌∙◌,
  arith, some, Bool-cases, Option-cases, any, Text, text_eq, text_eq_iff,
}
use smartdns_plus_ui.Db.Tables.{
  ClientData, Tables, same_client, touch_client, upsert_client, max_id, insert_clients,
  insert_client,
}

-- a row of the pair of `d`
abbrev pub has_client : ClientData → List ClientData → Bool
has_client d cs = any (λ c. same_client c d) cs

abbrev pub is_unique : List ClientData → Bool
is_unique [] = true
is_unique (c ∷ cs) = not (has_client c cs) && is_unique cs

text_eq_comm : (a b : Text) → text_eq a b ≡ text_eq b a
text_eq_comm a b = elim (Bool-cases (text_eq a b)) [
  | inl same ↦ same ∙ sym ((text_eq_iff b a).1 (sym ((text_eq_iff a b).0 same)))
  | inr other ↦ elim (Bool-cases (text_eq b a)) [
    | inl same ↦ (text_eq_iff a b).1 (sym ((text_eq_iff b a).0 same)) ∙ sym same
    | inr other' ↦ other ∙ sym other'
  ]
]

same_client_comm : (a b : ClientData) → same_client a b ≡ same_client b a
same_client_comm a b =
    ap₂ (λ x y. x && y) (text_eq_comm a.client_ip b.client_ip) (text_eq_comm a.mac b.mac)

has_client-touch_client :
    (d x : ClientData) (cs : List ClientData) → has_client x (touch_client d cs) ≡ has_client x cs
unfolding touch_client
has_client-touch_client d x [] = refl
has_client-touch_client d x (c ∷ cs) = elim (Bool-cases (same_client c d)) [
  | inl same ↦ rw (same, touch_client, has_client-touch_client d x cs) refl
  | inr other ↦ rw (other, touch_client, has_client-touch_client d x cs) refl
]

is_unique-touch_client :
    (d : ClientData) (cs : List ClientData) → is_unique (touch_client d cs) ≡ is_unique cs
unfolding touch_client
is_unique-touch_client d [] = refl
is_unique-touch_client d (c ∷ cs) = elim (Bool-cases (same_client c d)) [
  | inl same ↦
      rw (same, touch_client, has_client-touch_client d _ cs, is_unique-touch_client d cs) refl
  | inr other ↦
      rw (other, touch_client, has_client-touch_client d c cs, is_unique-touch_client d cs) refl
]

has_client-append :
    (x d : ClientData) (cs : List ClientData)
    → has_client x (cs ++ d ∷ []) ≡ (has_client x cs || same_client d x)
has_client-append x d [] = ground arith
has_client-append x d (c ∷ cs) = ground (arith, has_client-append x d cs)

is_unique-append :
    (d : ClientData) (cs : List ClientData)
    → has_client d cs ≡ false
    → is_unique cs ≡ true
    → is_unique (cs ++ d ∷ []) ≡ true
is_unique-append d [] h u = refl
is_unique-append d (c ∷ cs) h u =
    let (first, rest) = split (same_client c d) (has_client d cs) h in
    let (new, unique) = both (not (has_client c cs)) (is_unique cs) u in
    ap₂ (λ a b. not a && b)
      (has_client-append c d cs
        ∙ ap₂ (λ a b. a || b) (negated (has_client c cs) new) (same_client_comm d c ∙ first))
      (is_unique-append d cs rest unique)
  where
    split : (a b : Bool) → (a || b) ≡ false → (a ≡ false) × (b ≡ false)
    split a b e = ground arith

    both : (a b : Bool) → (a && b) ≡ true → (a ≡ true) × (b ≡ true)
    both a b e = ground arith

    negated : (a : Bool) → not a ≡ true → a ≡ false
    negated a e = ground arith

upsert_client_unique :
    (d : ClientData) (cs : List ClientData)
    → is_unique cs ≡ true
    → is_unique (upsert_client d cs) ≡ true
unfolding upsert_client
upsert_client_unique d cs u = elim (Bool-cases (has_client d cs)) [
  | inl old ↦ rw (old, upsert_client) (is_unique-touch_client d cs ∙ u)
  | inr new ↦ rw (new, upsert_client) (is_unique-append (record d { id = max_id cs + 1 }) cs new u)
]

insert_clients_unique :
    (fails : ClientData → Bool) (ds cs cs' : List ClientData)
    → is_unique cs ≡ true
    → insert_clients fails ds cs ≡ some cs'
    → is_unique cs' ≡ true
unfolding insert_clients
insert_clients_unique fails [] cs cs' u h = ground arith
insert_clients_unique fails (d ∷ ds) cs cs' u h =
    insert_clients_unique fails ds (upsert_client d cs) cs' (upsert_client_unique d cs u)
      (ground arith)

-- Whether it succeeds or is rolled back, an insertion of clients keeps the table free of two rows
-- for one address and MAC, and leaves the rows of queries and their counts alone.
pub insert_client_unique :
    (fails : ClientData → Bool) (commits : Bool) (ds : List ClientData) (t : Tables)
    → is_unique t.client ≡ true
    → (let t' = (insert_client fails commits ds t).0 in
        (is_unique t'.client ≡ true)
        × (t'.domain ≡ t.domain)
        × (t'.domain_hourly_count ≡ t.domain_hourly_count)
        × (t'.domain_daily_count ≡ t.domain_daily_count))
unfolding insert_client
insert_client_unique fails commits ds t u = elim (Option-cases (insert_clients fails ds t.client)) [
  | inl e ↦ rw (e, insert_client) (u, refl, refl, refl)
  | inr (cs, e) ↦ elim (Bool-cases commits) [
    | inl yes_commit ↦
        rw (e, insert_client, yes_commit)
          (insert_clients_unique fails ds t.client cs u e, refl, refl, refl)
    | inr no_commit ↦ rw (e, insert_client, no_commit) (u, refl, refl, refl)
  ]
]
