-- ===== src/Http/Lists/Deletion.antt =====
-- The answers to a deletion (src/http_server_api.rs).
use smartdns_plus_ui.Base.{
  ◌+◌, ◌<◌, ltb, codes, ℕ, ◌≡◌, ◌≢◌, ◌⊎◌, inl, inr, refl, ap, arith, Bool, true, false, not, List,
  [], ◌∷◌, Option, none, some, ◌==◌, filter, length, Text, Option-cases, Bool-cases, ==_iff,
}
use smartdns_plus_ui.Db.Tables.{DomainData, Tables, delete_domain_by_id}
use smartdns_plus_ui.Http.Lists.{
  Params, params_get_value, DeleteAnswer, no_content, read_u64, answer_deletion,
  api_domain_delete_by_id,
}

module _ {ℓ} {A : Type ℓ} (p : A → Bool) where
  filter-not_none : (xs : List A) → length (filter p xs) ≡ 0 → filter (λ x. not (p x)) xs ≡ xs
  filter-not_none [] h = refl
  filter-not_none (x ∷ xs) h = ground (arith, filter-not_none xs)

-- the id that is asked for
abbrev pub asked_id : Option Text → Option ℕ
asked_id none = none
asked_id (some text) = read_u64 text

abbrev pub has_id : ℕ → DomainData → Bool
has_id id d = d.id == id

-- A deletion is answered as done: there were rows with the id, and just these are gone.
pub record IsDone (id : ℕ) (t : Tables) (done : Tables × DeleteAnswer) : Type 0 where
  pub answer : done.1 ≡ no_content
  pub was_there : length (filter (has_id id) t.domain) ≢ 0
  pub removed : done.0 ≡ record t { domain = filter (λ d. not (has_id id d)) t.domain }

-- It is answered otherwise and all tables are as they were: the database failed, the text has no
-- id, or no row has it.
pub record IsNothing (succeeds : Bool) (asked : Option ℕ) (t : Tables)
    (done : Tables × DeleteAnswer) : Type 0 where
  pub answer : done.1 ≢ no_content
  pub same : done.0 ≡ t
  pub reason :
      (succeeds ≡ false)
      ⊎ (asked ≡ none)
      ⊎ ((id : ℕ) × (asked ≡ some id) × (length (filter (has_id id) t.domain) ≡ 0))

abbrev pub IsDoneOrNothing : Bool → Option ℕ → Tables → Tables × DeleteAnswer → Type 0
IsDoneOrNothing succeeds asked t done =
    ((id : ℕ) × (asked ≡ some id) × IsDone id t done) ⊎ IsNothing succeeds asked t done

delete_domain_by_id-IsDoneOrNothing :
    (succeeds : Bool) (id : ℕ) (t : Tables)
    → IsDoneOrNothing succeeds
        (some id)
        t
        (answer_deletion (λ count. no_content) (delete_domain_by_id succeeds id t))
unfolding delete_domain_by_id
delete_domain_by_id-IsDoneOrNothing false id t =
    inr (record { answer = ground arith; same = refl; reason = inl refl })
delete_domain_by_id-IsDoneOrNothing true id t =
    let count = length (filter (has_id id) t.domain) in
    elim (Bool-cases (count == 0)) [
      | inl nothing ↦
          let none_are : count ≡ 0 = (==_iff count 0).0 nothing in
          inr (record {
            answer = rw nothing (ground arith);
            same =
                ap (λ (rows : List DomainData). record t { domain = rows })
                  (filter-not_none (has_id id) t.domain none_are);
            reason = inr (inr (id, refl, none_are));
          })
      | inr some_are ↦ inl (
        id,
        refl,
        record { answer = rw some_are refl; was_there = λ none_are. ground arith; removed = refl },
      )
    ]

-- The deletion of a query by its id, whatever the text of the id and whether or not the database
-- succeeds: either it is answered as done, rows had the id, and just these rows are gone, or it is
-- answered otherwise, all tables are as they were, and the reason is that the database failed, that
-- the text is no id or that no row has it.
pub api_domain_delete_by_id_lem :
    (succeeds : Bool) (param : Option Text) (t : Tables)
    → IsDoneOrNothing succeeds (asked_id param) t (api_domain_delete_by_id succeeds param t)
unfolding api_domain_delete_by_id
api_domain_delete_by_id_lem succeeds none t =
    inr (record { answer = ground arith; same = refl; reason = inr (inl refl) })
api_domain_delete_by_id_lem succeeds (some text) t = elim (Option-cases (read_u64 text)) [
  | inl bad ↦ inr (record { answer = ground arith; same = ground arith; reason = inr (inl bad) })
  | inr (id, e) ↦
      rw (e, api_domain_delete_by_id) (delete_domain_by_id-IsDoneOrNothing succeeds id t)
]

-- the time that is asked for
abbrev pub asked_time : Params → Option ℕ
asked_time params = params_get_value read_u64 params (codes "timestamp_before")

-- a deletion that left the rows later than a time, with the number of those deleted
abbrev pub IsPruned : ℕ → Tables → ℕ → Tables → Type 0
IsPruned timestamp t n left =
    (left ≡ record t { domain = filter (λ d. ltb timestamp d.timestamp) t.domain })
    × (length left.domain + n ≡ length t.domain)
    × (0 < n)
