-- ===== src/Controller/Backup/Kept.antt =====
-- Which backups a round of the backup loop keeps.
use tailroute.Base.{
  ltb, ◌-◌, Result, ok, err, nat_eq, ℕ, zero, suc, ◌≤◌, ◌≡◌, refl, ◌∙◌, inl, inr, arith, true,
  false, Bool-cases, List, [], ◌∷◌, ap, retain, length, All, All-imp, if◌then◌else◌,
}
use tailroute.Base.Keys.{list_key, nat_key, Distinct}
use tailroute.Base.Text.{Text}
use tailroute.Base.Order.{sort_by, insert_sorted}
use tailroute.Controller.Backup.{BackupFile, is_backup, skip, prune_old_backups, backup_round}
use tailroute.Controller.Backup.Sorted.{
  before, Oldest, Descending, younger, paths, All-sort_by, sort_by-Descending, paths-Separate,
  retain-Separate,
}

younger-insert_sorted :
    (f a : BackupFile) (files : List BackupFile)
    → younger f (insert_sorted before a files) ≡ younger f (a ∷ files)
unfolding insert_sorted
younger-insert_sorted f a [] = refl
younger-insert_sorted f a (b ∷ files) = ground (arith, younger-insert_sorted f a files)

younger-sort_by :
    (f : BackupFile) (files : List BackupFile) → younger f (sort_by before files) ≡ younger f files
unfolding sort_by
younger-sort_by f [] = refl
younger-sort_by f (a ∷ files) =
    younger-insert_sorted f a (sort_by before files) ∙ ground (arith, younger-sort_by f files)

All-skip :
    (P : BackupFile → Type 0) (n : ℕ) (files : List BackupFile) → All P files → All P (skip n files)
unfolding skip
All-skip P zero files all = all
All-skip P (suc n) [] all = tt
All-skip P (suc n) (a ∷ files) (p, all) = All-skip P n files all

count_more :
    (n : ℕ) (a : BackupFile) (files removed : List BackupFile)
    → Oldest a removed
    → All (λ f. n ≤ younger f files) removed
    → All (λ f. suc n ≤ younger f (a ∷ files)) removed
count_more n a files [] oldest all = tt
count_more n a files (f ∷ removed) (h, oldest) (k, all) =
    (rw h (omega (arith, k)), count_more n a files removed oldest all)

none_needed : (count : BackupFile → ℕ) (files : List BackupFile) → All (λ f. 0 ≤ count f) files
none_needed count [] = tt
none_needed count (f ∷ files) = (omega arith, none_needed count files)

skip-younger :
    (n : ℕ) (files : List BackupFile)
    → Descending files
    → All (λ f. n ≤ younger f files) (skip n files)
unfolding skip
skip-younger zero files d = none_needed (λ f. younger f files) files
skip-younger (suc n) [] d = tt
skip-younger (suc n) (a ∷ files) (all, d) =
    count_more n a files (skip n files) (All-skip _ n files all) (skip-younger n files d)

retain-is_backup :
    (files : List BackupFile) → All (λ f. is_backup f ≡ true) (retain is_backup files)
retain-is_backup [] = tt
retain-is_backup (f ∷ files) = elim (Bool-cases (is_backup f)) [
  | inl backup ↦ rw backup (backup, retain-is_backup files)
  | inr other ↦ rw other (retain-is_backup files)
]

length-skip : (n : ℕ) (files : List BackupFile) → length (skip n files) ≡ length files - n
unfolding skip
length-skip zero files = omega arith
length-skip (suc n) [] = omega arith
length-skip (suc n) (f ∷ files) = omega (arith, length-skip n files)

length-insert_sorted :
    (a : BackupFile) (files : List BackupFile)
    → length (insert_sorted before a files) ≡ suc (length files)
unfolding insert_sorted
length-insert_sorted a [] = refl
length-insert_sorted a (b ∷ files) = ground (arith, length-insert_sorted a files)

length-sort_by : (files : List BackupFile) → length (sort_by before files) ≡ length files
unfolding sort_by
length-sort_by [] = refl
length-sort_by (a ∷ files) =
    length-insert_sorted a (sort_by before files) ∙ ap suc (length-sort_by files)

prune-oldest :
    (keep : ℕ) (files : List BackupFile)
    → Distinct (paths files)
    → All (λ f. keep ≤ younger f (retain is_backup files)) (prune_old_backups keep files)
unfolding prune_old_backups
prune-oldest keep files d =
    let backups = retain is_backup files in
    let sorted = sort_by before backups in
    let ordered = sort_by-Descending backups (retain-Separate files (paths-Separate files d)) in
    All-imp {P = λ f. keep ≤ younger f sorted} {Q = λ f. keep ≤ younger f backups}
      (λ f k. rw (younger-sort_by f backups) at k) (skip keep sorted)
      (skip-younger keep sorted ordered)

prune-backups :
    (keep : ℕ) (files : List BackupFile)
    → All (λ f. is_backup f ≡ true) (prune_old_backups keep files)
unfolding prune_old_backups
prune-backups keep files =
    All-skip _ keep _ (All-sort_by _ (retain is_backup files) (retain-is_backup files))

prune-count :
    (keep : ℕ) (files : List BackupFile)
    → length (prune_old_backups keep files) ≡ length (retain is_backup files) - keep
unfolding prune_old_backups
prune-count keep files =
    length-skip keep (sort_by before (retain is_backup files))
    ∙ ap (λ n. n - keep) (length-sort_by (retain is_backup files))

-- How many backups of `n` a round removes: those beyond the number to keep, and none if the backup
-- failed or that number is 0.
abbrev pub surplus : Result Text Text → ℕ → ℕ → ℕ
surplus (err e) keep n = 0
surplus (ok path) keep n = if nat_eq keep 0 then 0 else n - keep

-- A round of the backup loop on files of different paths removes backups only, and as many as there
-- are beyond `keep`, or none if the backup failed or `keep` is 0. For each file that it removes, at
-- least `keep` backups are younger, by the order of their paths.
pub backup_round-oldest :
    (keep : ℕ) (outcome : Result Text Text) (files : List BackupFile)
    → Distinct (paths files)
    → All (λ f. is_backup f ≡ true) (backup_round keep outcome files)
      × (length (backup_round keep outcome files)
          ≡ surplus outcome keep (length (retain is_backup files)))
      × All (λ f. keep ≤ younger f (retain is_backup files)) (backup_round keep outcome files)
unfolding backup_round
backup_round-oldest keep (err e) files d = (tt, refl, tt)
backup_round-oldest zero (ok path) files d = (tt, refl, tt)
backup_round-oldest (suc keep) (ok path) files d =
    let some_kept : ltb 0 (suc keep) ≡ true = ground arith in
    let not_zero : nat_eq (suc keep) 0 ≡ false = ground arith in
    rw (some_kept, not_zero)
      (
        prune-backups (suc keep) files,
        prune-count (suc keep) files,
        prune-oldest (suc keep) files d,
      )
