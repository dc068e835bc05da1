-- ===== src/Db/Tables/Counts.antt =====
-- The hourly and daily counts of `insert_domain` (src/db.rs).
use native.Mathlib.Nat.{mod-lt, mod-le, div-add-mod', mul-mod_left}
use smartdns_plus_ui.Base.Word.{u64_mod}
use smartdns_plus_ui.Base.{
  ℕ, ◌+◌, ◌-◌, ◌*◌, ◌/◌, ◌%◌, ◌≤◌, ◌<◌, ◌≡◌, refl, ◌∙◌, arith, Bool, true, false, List, [], ◌∷◌,
  some, Option-cases, Bool-cases, inl, inr, if◌then◌else◌, ◌==◌, length, length-append, any,
  is_some,
}
use smartdns_plus_ui.Db.Tables.{
  DomainData, Counts, Tables, add_count, update_counts, bucket_timestamp, Insert, insert_row,
  insert_rows, insert_domain,
}

-- all that a table of counts has counted
abbrev pub total : Counts → ℕ
total [] = 0
total ((k, n) ∷ counts) = n + total counts

-- the count of one timestamp
abbrev pub count_at : ℕ → Counts → ℕ
count_at k [] = 0
count_at k ((j, n) ∷ counts) = (if j == k then n else 0) + count_at k counts

total-add_count : (k n : ℕ) (counts : Counts) → total (add_count k n counts) ≡ total counts + n
unfolding add_count
total-add_count k n [] = omega arith
total-add_count k n ((j, m) ∷ counts) = ground (arith, total-add_count k n counts)

total-update_counts :
    (counts table : Counts) → total (update_counts counts table) ≡ total table + total counts
unfolding update_counts
total-update_counts [] table = omega arith
total-update_counts ((k, n) ∷ counts) table =
    omega (arith, total-update_counts counts (add_count k n table), total-add_count k n table)

record Counted (rows : ℕ) (s s' : Insert) : Type 0 where
  hourly : total s'.hourly_count ≡ total s.hourly_count + rows
  daily : total s'.daily_count ≡ total s.daily_count + rows
  domain : length s'.tables.domain ≡ length s.tables.domain + rows
  client : s'.tables.client ≡ s.tables.client

insert_row-Counted :
    (offset : ℕ) (d : DomainData) (s : Insert) → Counted 1 s (insert_row offset d s)
unfolding insert_row
insert_row-Counted offset d s = record {
  hourly = total-add_count _ 1 s.hourly_count;
  daily = total-add_count _ 1 s.daily_count;
  domain = length-append s.tables.domain _;
  client = refl;
}

insert_rows-Counted :
    (fails : DomainData → Bool) (offset : ℕ) (ds : List DomainData) (s s' : Insert)
    → insert_rows fails offset ds s ≡ some s'
    → Counted (length ds) s s'
unfolding insert_rows
insert_rows-Counted fails offset [] s s' h = ground arith
insert_rows-Counted fails offset (d ∷ ds) s s' h =
    let one = insert_row-Counted offset d s in
    let rest = insert_rows-Counted fails offset ds (insert_row offset d s) s' (ground arith) in
    record {
      hourly = omega (arith, one.hourly, rest.hourly);
      daily = omega (arith, one.daily, rest.daily);
      domain = omega (arith, one.domain, rest.domain);
      client = rest.client ∙ one.client;
    }

-- A call that returns `Ok` adds a row for each entry, and adds their number to the hourly and to
-- the daily counts; one that returns an error adds none. The clients stay as they were.
pub insert_domain_lem :
    (fails : DomainData → Bool) (commits : Bool) (offset : ℕ) (ds : List DomainData) (t : Tables)
    → (let (t', done) = insert_domain fails commits offset ds t in
        let rows : ℕ = if done then length ds else 0 in
        (length t'.domain ≡ length t.domain + rows)
        × (total t'.domain_hourly_count ≡ total t.domain_hourly_count + rows)
        × (total t'.domain_daily_count ≡ total t.domain_daily_count + rows)
        × (t'.client ≡ t.client))
unfolding insert_domain
insert_domain_lem fails commits offset ds t =
    let start : Insert = record { tables = t; hourly_count = []; daily_count = [] } in
    elim (Option-cases (insert_rows fails offset ds start)) [
      | inl e ↦ rw (e, insert_domain) (omega arith, omega arith, omega arith, refl)
      | inr (s, e) ↦
          let c = insert_rows-Counted fails offset ds start s e in
          elim (Bool-cases commits) [
            | inl yes_commit ↦
                rw (e, insert_domain, yes_commit)
                  (
                    c.domain,
                    omega
                        (arith, c.hourly, total-update_counts s.hourly_count t.domain_hourly_count),
                    omega (arith, c.daily, total-update_counts s.daily_count t.domain_daily_count),
                    c.client,
                  )
            | inr no_commit ↦
                rw (e, insert_domain, no_commit) (omega arith, omega arith, omega arith, refl)
          ]
    ]

insert_rows_accepted :
    (fails : DomainData → Bool) (offset : ℕ) (ds : List DomainData) (s : Insert)
    → any fails ds ≡ false
    → is_some (insert_rows fails offset ds s) ≡ true
unfolding insert_rows
insert_rows_accepted fails offset [] s h = refl
insert_rows_accepted fails offset (d ∷ ds) s h =
    ground (arith, insert_rows_accepted fails offset ds (insert_row offset d s))

-- A call succeeds where the database refuses none of the rows and the transaction commits.
pub insert_domain_accepted :
    (fails : DomainData → Bool) (offset : ℕ) (ds : List DomainData) (t : Tables)
    → any fails ds ≡ false
    → (insert_domain fails true offset ds t).1 ≡ true
unfolding insert_domain
insert_domain_accepted fails offset ds t h =
    let start : Insert = record { tables = t; hourly_count = []; daily_count = [] } in
    elim (Option-cases (insert_rows fails offset ds start)) [
      | inl e ↦ ground (arith, insert_rows_accepted fails offset ds start h)
      | inr (s, e) ↦ rw (e, insert_domain)
    ]

mod-of_floor : (n width : ℕ) → (n - n % width) % width ≡ 0
mod-of_floor n width =
    let e : n - n % width ≡ n / width * width = omega (arith, div-add-mod' n width) in
    rw e (mul-mod_left (n / width) width)

module _ (width seconds timestamp : ℕ) (positive : 0 < width) where
  -- East of Greenwich: the bucket of a row holds its timestamp, is `width` long and starts at a
  -- multiple of `width` in local time (for times behind the first bucket that stay below 2^64).
  pub bucket_east :
      seconds < 86400
      → width + seconds * 1000 ≤ timestamp
      → timestamp + seconds * 1000 < u64_mod
      → (let start = bucket_timestamp width seconds timestamp in
          (start ≤ timestamp)
          × (timestamp < start + width)
          × ((start + seconds * 1000) % width ≡ 0))
  unfolding bucket_timestamp
  bucket_east s t u =
      let local = timestamp + seconds * 1000 in
      let off : seconds * 1000 % u64_mod ≡ seconds * 1000 = omega arith in
      let loc : local % u64_mod ≡ local = omega arith in
      let short : local % width < width = mod-lt local positive in
      let back : local % width ≤ local = mod-le local width in
      let e : (local - local % width + u64_mod - seconds * 1000) % u64_mod
          ≡ local - local % width - seconds * 1000 =
        omega arith in
      let again : local - local % width - seconds * 1000 + seconds * 1000 ≡ local - local % width =
        omega arith in
      rw (off, loc, e) (omega arith, omega arith, rw again (mod-of_floor local width))

  -- West of Greenwich the offset is the bits of a negative number: the additions wrap around to
  -- the same bucket, of the timestamp less the offset.
  pub bucket_west :
      0 < seconds
      → seconds < 86400
      → width + seconds * 1000 ≤ timestamp
      → timestamp + width < u64_mod
      → (let start = bucket_timestamp width (u64_mod - seconds) timestamp in
          (start ≤ timestamp)
          × (timestamp < start + width)
          × ((start - seconds * 1000) % width ≡ 0))
  unfolding bucket_timestamp
  bucket_west n s t u =
      let local = timestamp - seconds * 1000 in
      let off : (u64_mod - seconds) * 1000 % u64_mod ≡ u64_mod - seconds * 1000 = omega arith in
      let loc : (timestamp + (u64_mod - seconds * 1000)) % u64_mod ≡ local = omega arith in
      let short : local % width < width = mod-lt local positive in
      let back : local % width ≤ local = mod-le local width in
      let e : (local - local % width + u64_mod - (u64_mod - seconds * 1000)) % u64_mod
          ≡ local - local % width + seconds * 1000 =
        omega arith in
      let again : local - local % width + seconds * 1000 - seconds * 1000 ≡ local - local % width =
        omega arith in
      rw (off, loc, e) (omega arith, omega arith, rw again (mod-of_floor local width))
