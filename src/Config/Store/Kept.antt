-- ===== src/Config/Store/Kept.antt =====
-- `write_text_with_backup_if_changed` of src/config_ui.rs, whatever fails: no text is lost.
use smartdns_plus_ui.Base.{
  ℕ, false, [], ◌∷◌, ◌≡◌, refl, ◌⊎◌, inl, inr, Option, some, unwrap_or, Bool-cases, Text, text_eq,
  text_eq_iff, suc, arith,
}
use smartdns_plus_ui.Config.Paths.{backup_path}
use smartdns_plus_ui.Config.Store.{
  IoError, Fault, fine, fails, Result, ok, err, Store, tmp_path, backup_file,
  write_text_with_backup_if_changed,
}
use smartdns_plus_ui.Config.Store.Writing.{
  write_text_atomic_lem, write_text_atomic-elsewhere, backup_file_lem, backup_file-elsewhere,
}

Fault-cases : (f : Fault) → (f ≡ fine) ⊎ ((e : IoError) × (l : Option Text) × (f ≡ fails e l))
Fault-cases fine = inl refl
Fault-cases (fails e l) = inr (e, l, refl)

text_eq_comm : (a b : Text) → text_eq a b ≡ text_eq b a
unfolding text_eq
text_eq_comm [] [] = refl
text_eq_comm [] (y ∷ b) = refl
text_eq_comm (x ∷ a) [] = refl
text_eq_comm (x ∷ a) (y ∷ b) = ground (arith, text_eq_comm a b)

module _ (fault : ℕ → Fault) (path content : Text) (s : Store) where
  abbrev saved : Result (Unit {0}) × Store
  saved = write_text_with_backup_if_changed fault path content s

  -- the store once the old text was read
  abbrev read_store : Store
  read_store = record s { turn = suc s.turn }

  abbrev backed : Result (Unit {0}) × Store
  backed = backup_file fault path read_store

  saved_content : saved.0 ≡ ok tt → unwrap_or (saved.1.files path) [] ≡ content
  unfolding write_text_with_backup_if_changed
  saved_content done = ground (
    arith,
    write_text_atomic_lem fault path content backed.1,
    write_text_atomic_lem fault path content read_store,
    text_eq_iff (unwrap_or (s.files path) []) content,
  )

  saved-elsewhere :
      (q : Text)
      → text_eq q path ≡ false
      → text_eq q (tmp_path path) ≡ false
      → text_eq q (backup_path path) ≡ false
      → saved.1.files q ≡ s.files q
  unfolding write_text_with_backup_if_changed
  saved-elsewhere q h k l = ground (
    arith,
    write_text_atomic-elsewhere fault path content backed.1 q,
    write_text_atomic-elsewhere fault path content read_store q,
    backup_file-elsewhere fault path read_store q,
  )

  Result-cases : (r : Result (Unit {0})) → (r ≡ ok tt) ⊎ ((e : IoError) × (r ≡ err e))
  Result-cases (ok done) = inl refl
  Result-cases (err e) = inr (e, refl)

  -- the old text is at its place, or in the backup
  saved-keeps :
      (old : Text)
      → s.files path ≡ some old
      → text_eq path (backup_path path) ≡ false
      → text_eq (backup_path path) (tmp_path path) ≡ false
      → (saved.1.files path ≡ some old) ⊎ (saved.1.files (backup_path path) ≡ some old)
  unfolding write_text_with_backup_if_changed
  saved-keeps old e h k = elim (Fault-cases (fault s.turn)) [
    | inr (kind, left, failed) ↦ inl (ground arith)
    | inl read ↦ elim (Bool-cases (text_eq old content)) [
      | inl same ↦ inl (ground arith)
      | inr changed ↦ elim (Result-cases backed.0) [
        | inr (kind, failed) ↦
            inl (ground (arith, backup_file-elsewhere fault path read_store path))
        | inl done ↦ inr (
            ground (
              arith,
              backup_file_lem fault path read_store old,
              write_text_atomic-elsewhere fault path content backed.1 (backup_path path),
              text_eq_comm path (backup_path path),
            ))
      ]
    ]
  ]

-- Whatever operations of the disk fail, and whatever a failing write leaves behind: where
-- write_text_with_backup_if_changed answers Ok, the file reads as the new text; the old text of the
-- file is still at its place or is in the backup; and no other file than the two and the temporary
-- one is touched. The backup is another file than the target and the temporary one.
pub write_text_with_backup_if_changed_keeps :
    (fault : ℕ → Fault) (path content : Text) (s : Store)
    → text_eq path (backup_path path) ≡ false
    → text_eq (backup_path path) (tmp_path path) ≡ false
    → ((write_text_with_backup_if_changed fault path content s).0 ≡ ok tt
        → unwrap_or ((write_text_with_backup_if_changed fault path content s).1.files path) []
          ≡ content)
      × ((old : Text)
          → s.files path ≡ some old
          → ((write_text_with_backup_if_changed fault path content s).1.files path ≡ some old)
            ⊎ ((write_text_with_backup_if_changed fault path content s).1.files (backup_path path)
                ≡ some old))
      × ((q : Text)
          → text_eq q path ≡ false
          → text_eq q (tmp_path path) ≡ false
          → text_eq q (backup_path path) ≡ false
          → (write_text_with_backup_if_changed fault path content s).1.files q ≡ s.files q)
write_text_with_backup_if_changed_keeps fault path content s h k = (
  saved_content fault path content s,
  λ old e. saved-keeps fault path content s old e h k,
  saved-elsewhere fault path content s,
)
