-- ===== src/Config/Store/Writing.antt =====
-- What `write_text_atomic` and `backup_file` of src/config_ui.rs leave on the disk.
use smartdns_plus_ui.Base.{
  ℕ, false, [], ◌∷◌, ◌++◌, ◌≡◌, refl, some, Text, codes, text_eq, text_eq_refl, arith,
}
use smartdns_plus_ui.Config.Paths.{backup_path}
use smartdns_plus_ui.Config.Store.{
  Fault, Result, ok, Store, tmp_path, after_rename, rename, write_text_atomic, backup_file,
}

-- a text is not one that it starts
text_eq-append : (a : Text) (c : ℕ) (b : Text) → text_eq a (a ++ c ∷ b) ≡ false
unfolding text_eq
text_eq-append [] c b = refl
text_eq-append (x ∷ a) c b = ground (arith, text_eq-append a c b)

module _ (fault : ℕ → Fault) (path content : Text) where
  abbrev renamed : Store → Result (Unit {0}) × Store
  renamed s = after_rename fault path content (rename fault (tmp_path path) path s)

  after_rename_lem :
      (s : Store)
      → s.files (tmp_path path) ≡ some content
      → (renamed s).0 ≡ ok tt
      → (renamed s).1.files path ≡ some content
  unfolding after_rename rename
  after_rename_lem s tmp done =
      ground (arith, text_eq_refl path, text_eq-append path b'.' (codes "tmp"))

  after_rename-elsewhere :
      (s : Store) (q : Text)
      → text_eq q path ≡ false
      → text_eq q (tmp_path path) ≡ false
      → (renamed s).1.files q ≡ s.files q
  unfolding after_rename rename
  after_rename-elsewhere s q h k = ground arith

  abbrev written : Store → Result (Unit {0}) × Store
  written s = write_text_atomic fault path content s

  pub write_text_atomic_lem :
      (s : Store) → (written s).0 ≡ ok tt → (written s).1.files path ≡ some content
  unfolding write_text_atomic
  write_text_atomic_lem s done = ground (
    arith,
    text_eq_refl path,
    text_eq_refl (tmp_path path),
    text_eq-append path b'.' (codes "tmp"),
  )

  pub write_text_atomic-elsewhere :
      (s : Store) (q : Text)
      → text_eq q path ≡ false
      → text_eq q (tmp_path path) ≡ false
      → (written s).1.files q ≡ s.files q
  unfolding write_text_atomic
  write_text_atomic-elsewhere s q h k = ground arith

module _ (fault : ℕ → Fault) (path : Text) where
  abbrev backed_up : Store → Result (Unit {0}) × Store
  backed_up s = backup_file fault path s

  pub backup_file_lem :
      (s : Store) (old : Text)
      → s.files path ≡ some old
      → text_eq path (backup_path path) ≡ false
      → (backed_up s).0 ≡ ok tt
      → (backed_up s).1.files (backup_path path) ≡ some old
  unfolding backup_file
  backup_file_lem s old e h done = ground (arith, text_eq_refl (backup_path path))

  pub backup_file-elsewhere :
      (s : Store) (q : Text)
      → text_eq q (backup_path path) ≡ false
      → (backed_up s).1.files q ≡ s.files q
  unfolding backup_file
  backup_file-elsewhere s q h = ground arith
