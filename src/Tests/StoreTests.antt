-- ===== src/Tests/StoreTests.antt =====
-- The writes of src/config_ui.rs on a disk that fails at chosen operations.
use smartdns_plus_ui.Base.{
  ℕ, false, [], ◌≡◌, refl, ◌⊎◌, none, some, if◌then◌else◌, ◌==◌, unwrap_or, Text, codes, text_eq,
}
use smartdns_plus_ui.Config.Paths.{backup_path}
use smartdns_plus_ui.Config.Store.{
  permission_denied, other, Fault, fine, fails, ok, Store, tmp_path, write_text_atomic,
  write_text_with_backup_if_changed, backup_file,
}
use smartdns_plus_ui.Config.Store.Kept.{write_text_with_backup_if_changed_keeps}

abbrev page : Text
page = codes "/etc/conf.d/10-basic.conf"

abbrev one_page : Store
one_page = record { files = λ q. if text_eq q page then some (codes "old") else none; turn = 0 }

-- The rename (operation 5) is not permitted, and the direct write (6) breaks off: the target is
-- broken, and the old text is in the backup.
abbrev breaks_off : ℕ → Fault
breaks_off n =
    if n == 5
    then fails permission_denied none
    else if n == 6
    then fails other (some (codes "ne"))
    else fine

write_text_with_backup_if_changed_keeps_example :
    ((write_text_with_backup_if_changed breaks_off page (codes "new") one_page).0 ≡ ok tt
      → unwrap_or
          ((write_text_with_backup_if_changed breaks_off page (codes "new") one_page).1.files page)
          []
        ≡ codes "new")
    × ((old : Text)
        → one_page.files page ≡ some old
        → ((write_text_with_backup_if_changed breaks_off page (codes "new") one_page).1.files page
            ≡ some old)
          ⊎ ((write_text_with_backup_if_changed breaks_off page (codes "new") one_page).1.files
                (backup_path page)
              ≡ some old))
    × ((q : Text)
        → text_eq q page ≡ false
        → text_eq q (tmp_path page) ≡ false
        → text_eq q (backup_path page) ≡ false
        → (write_text_with_backup_if_changed breaks_off page (codes "new") one_page).1.files q
          ≡ one_page.files q)
unfolding backup_path text_eq
write_text_with_backup_if_changed_keeps_example =
    write_text_with_backup_if_changed_keeps breaks_off page (codes "new") one_page refl refl

broken_target :
    (write_text_with_backup_if_changed breaks_off page (codes "new") one_page).1.files page
    ≡ some (codes "ne")
unfolding write_text_with_backup_if_changed write_text_atomic backup_file backup_path
broken_target = refl

kept_backup :
    (write_text_with_backup_if_changed breaks_off page (codes "new") one_page).1.files
      (codes "/etc/conf.d/10-basic.conf.backup")
    ≡ some (codes "old")
unfolding write_text_with_backup_if_changed write_text_atomic backup_file backup_path
kept_backup = refl
