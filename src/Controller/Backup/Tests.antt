-- ===== src/Controller/Backup/Tests.antt =====
-- The theorem on the backups at three files of one directory.
use tailroute.Base.{ok, ◌≡◌, ◌≤◌, refl, true, some, List, [], ◌∷◌, length, retain, All}
use tailroute.Base.Keys.{list_eq, member, list_key, nat_key}
use tailroute.Base.Order.{text_lt, sort_by}
use tailroute.Base.Text.{text, starts_with, ends_with}
use tailroute.Controller.Backup.{BackupFile, is_backup, prune_old_backups, backup_round}
use tailroute.Controller.Backup.Kept.{surplus, backup_round-oldest}
use tailroute.Controller.Backup.Sorted.{younger}

abbrev old : BackupFile
old = record { path = text "/b/controller-1.db"; file_name = some (text "controller-1.db") }

abbrev young : BackupFile
young = record { path = text "/b/controller-2.db"; file_name = some (text "controller-2.db") }

abbrev notes : BackupFile
notes = record { path = text "/b/notes"; file_name = some (text "notes") }

abbrev files : List BackupFile
files = old ∷ notes ∷ young ∷ []

removed : backup_round 1 (ok []) files ≡ old ∷ []
unfolding backup_round prune_old_backups sort_by starts_with ends_with text list_eq text_lt
removed = refl

backup_round-oldest_example :
    All (λ f. is_backup f ≡ true) (backup_round 1 (ok []) files)
    × (length (backup_round 1 (ok []) files) ≡ surplus (ok []) 1 (length (retain is_backup files)))
    × All (λ f. 1 ≤ younger f (retain is_backup files)) (backup_round 1 (ok []) files)
unfolding member text list_eq
backup_round-oldest_example = backup_round-oldest 1 (ok []) files (refl, (refl, (refl, tt)))
