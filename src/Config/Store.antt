-- ===== src/Config/Store.antt =====
-- The files that src/config_ui.rs writes: `write_text_atomic`, `backup_file`, `prune_backup_files`
-- and `write_text_with_backup_if_changed`, on a disk each of whose operations may fail.
pub mod Writing
pub mod Kept
use smartdns_plus_ui.Base.{
  ℕ, suc, Bool, List, [], ◌∷◌, ◌++◌, Option, none, some, if◌then◌else◌, unwrap_or, is_some, drop,
  Text, codes, text_eq,
}
use smartdns_plus_ui.Config.Paths.{parent, backup_path}

-- `io::Error`, by its kind
pub data IoError : Type 0 where
  permission_denied other : IoError

-- What happens to an operation. Where a write or a copy fails, it leaves the file as it was, or with
-- some other text.
pub data Fault : Type 0 where
  fine : Fault
  fails : IoError → Option Text → Fault

pub data Result {ℓ} (A : Type ℓ) : Type ℓ where
  ok : A → Result A
  err : IoError → Result A

-- the files by their paths, and how many operations there were
pub record Store : Type 0 where
  pub files : Text → Option Text
  pub turn : ℕ

abbrev pub put : Text → Option Text → (Text → Option Text) → Text → Option Text
put path content files q = if text_eq q path then content else files q

abbrev pub left_by : Text → Option Text → (Text → Option Text) → Text → Option Text
left_by path none files = files
left_by path (some left) files = put path (some left) files

abbrev pub M {ℓ} : Type ℓ → Type ℓ
M A = Store → Result A × Store

-- `?`
abbrev pub bind_result {ℓ κ} :
    {A : Type ℓ} {B : Type κ} → Result A × Store → (A → M B) → Result B × Store
bind_result (ok a, s) f = f a s
bind_result (err e, s) f = (err e, s)

infixl 5 ◌>>=◌ ◌>>◌
abbrev pub ◌>>=◌ {ℓ κ} : {A : Type ℓ} {B : Type κ} → M A → (A → M B) → M B
◌>>=◌ m f s = bind_result (m s) f

abbrev pub ◌>>◌ {ℓ} : {B : Type ℓ} → M (Unit {0}) → M B → M B
◌>>◌ m k s = bind_result (m s) (λ _. k)

abbrev pub pure {ℓ} : {A : Type ℓ} → A → M A
pure a s = (ok a, s)

-- `let _ = …`
abbrev pub ignored : M (Unit {0}) → M (Unit {0})
ignored m s = (ok tt, (m s).1)

abbrev pub tmp_path : Text → Text
tmp_path path = path ++ codes ".tmp"

-- `fault n` is what happens to the operation number `n`
module _ (fault : ℕ → Fault) where
  -- an operation that changes the files by `change`, and by `broken` where it fails
  abbrev pub operation :
      ((Text → Option Text) → Text → Option Text)
      → (Option Text → (Text → Option Text) → Text → Option Text)
      → M (Unit {0})
  operation change broken s = elim (fault s.turn) [
    | fine ↦ (ok tt, record { files = change s.files; turn = suc s.turn })
    | fails e left ↦ (err e, record { files = broken left s.files; turn = suc s.turn })
  ]

  unfoldable pub create_dir_all : Text → M (Unit {0})
  create_dir_all path = operation (λ files. files) (λ left files. files)

  unfoldable pub write : Text → Text → M (Unit {0})
  write path content = operation (put path (some content)) (left_by path)

  unfoldable pub rename : Text → Text → M (Unit {0})
  rename from to =
      operation (λ files. put from none (put to (files from) files)) (λ left files. files)

  unfoldable pub remove_file : Text → M (Unit {0})
  remove_file path = operation (put path none) (λ left files. files)

  unfoldable pub copy : Text → Text → M (Unit {0})
  copy from to = operation (λ files. put to (files from) files) (left_by to)

  unfoldable pub read_dir : Text → M (Unit {0})
  read_dir path = operation (λ files. files) (λ left files. files)

  -- a file that is not there is read as the empty text
  unfoldable pub read_text_or_default : Text → M Text
  read_text_or_default path s = elim (fault s.turn) [
    | fine ↦ (ok (unwrap_or (s.files path) []), record s { turn = suc s.turn })
    | fails e left ↦ (err e, record s { turn = suc s.turn })
  ]

  -- what follows the rename: a direct write where the rename was not permitted
  unfoldable pub after_rename : Text → Text → Result (Unit {0}) × Store → Result (Unit {0}) × Store
  unfolding write remove_file
  after_rename path content (ok done, s) = (ok done, s)
  after_rename path content (err permission_denied, s) =
      ◌>>◌ (write path content) (ignored (remove_file (tmp_path path))) s
  after_rename path content (err other, s) = (err other, (remove_file (tmp_path path) s).1)

  unfoldable pub write_text_atomic : Text → Text → M (Unit {0})
  unfolding create_dir_all write rename after_rename
  write_text_atomic path content =
      let make_dir : M (Unit {0}) = elim (parent path) [
        | none ↦ pure tt
        | some dir ↦ create_dir_all dir
      ] in
      make_dir >> write (tmp_path path) content >> λ s.
      after_rename path content (rename (tmp_path path) path s)

  abbrev pub remove_all : List Text → M (Unit {0})
  remove_all [] = pure tt
  remove_all (path ∷ paths) = ignored (remove_file path) >> remove_all paths

  -- A directory has one entry of a name, so that the list of backups, which is sorted by their
  -- times, has the backup file or nothing.
  unfoldable pub prune_backup_files : Text → ℕ → M (Unit {0})
  unfolding read_dir remove_file
  prune_backup_files path keep = read_dir (unwrap_or (parent path) (codes ".")) >> λ s.
      let backups = if is_some (s.files (backup_path path)) then backup_path path ∷ [] else [] in
      remove_all (drop keep backups) s

  unfoldable pub backup_file : Text → M (Unit {0})
  unfolding copy prune_backup_files
  backup_file path s =
      if is_some (s.files path)
      then ◌>>◌ (copy path (backup_path path)) (prune_backup_files path 1) s
      else (ok tt, s)

  unfoldable pub write_text_with_backup_if_changed : Text → Text → M (Unit {0})
  unfolding read_text_or_default text_eq
  write_text_with_backup_if_changed path content = read_text_or_default path >>= λ current.
      if text_eq current content
      then pure tt
      else (λ s. if is_some (s.files path) then backup_file path s else (ok tt, s))
        >> write_text_atomic path content
