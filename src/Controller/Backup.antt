-- ===== src/Controller/Backup.antt =====
-- crates/tailsvc-controller/src/backup.rs: which files a round of the backup loop removes. A file is
-- its path, with its name if that is readable.
pub mod Sorted
pub mod Kept
pub mod Tests
use tailroute.Base.{
  ℕ, zero, suc, ◌+◌, ◌≤◌, Result, ok, err, Bool, false, ◌&&◌, Option, none, some, List, [], ◌∷◌,
  ltb, retain, length, arith, if◌then◌else◌,
}
use tailroute.Base.Text.{Text, text, starts_with, ends_with}
use tailroute.Base.Order.{text_lt, sort_by}

pub record BackupFile : Type 0 where
  pub path : Text
  pub file_name : Option Text

abbrev has_name : Option Text → Bool
has_name none = false
has_name (some n) = starts_with (text "controller-") n && ends_with (text ".db") n

unfoldable pub is_backup : BackupFile → Bool
is_backup f = has_name f.file_name

-- `skip`.
unfoldable pub skip : ℕ → List BackupFile → List BackupFile
skip zero files = files
skip (suc n) [] = []
skip (suc n) (f ∷ files) = skip n files

-- The files that are removed, the youngest of them first: names hold the time of the backup.
unfoldable pub prune_old_backups : ℕ → List BackupFile → List BackupFile
unfolding is_backup skip
prune_old_backups keep files =
    skip keep (sort_by (λ a b. text_lt b.path a.path) (retain is_backup files))

-- A round of the loop, by the outcome of the backup.
unfoldable pub backup_round : ℕ → Result Text Text → List BackupFile → List BackupFile
unfolding prune_old_backups
backup_round keep (err e) files = []
backup_round keep (ok path) files = if ltb 0 keep then prune_old_backups keep files else []
