-- ===== src/Controller/Backup/Sorted.antt =====
-- The order in which crates/tailsvc-controller/src/backup.rs looks at the backups.
use tailroute.Base.{
  map, All-retain, ℕ, ◌≡◌, refl, inl, inr, arith, Bool, true, false, Bool-cases, List, [], ◌∷◌,
  retain, length, All,
}
use tailroute.Base.Keys.{◌==◌, list_key, nat_key, list_eq, list_eq_iff, member, Distinct}
use tailroute.Base.Text.{Text}
use tailroute.Base.Order.{text_lt, sort_by, insert_sorted}
use tailroute.Controller.Backup.{BackupFile, is_backup}

text_lt_trans : (s t u : Text) → text_lt s t ≡ true → text_lt t u ≡ true → text_lt s u ≡ true
unfolding text_lt
text_lt_trans s [] [] h k = cc
text_lt_trans s (d ∷ t) [] h k = cc
text_lt_trans [] t (e ∷ u) h k = refl
text_lt_trans (c ∷ s) [] (e ∷ u) h k = cc
text_lt_trans (c ∷ s) (d ∷ t) (e ∷ u) h k = ground (arith, text_lt_trans s t u)

text_lt_total : (s t : Text) → text_lt s t ≡ false → (t == s) ≡ false → text_lt t s ≡ true
unfolding text_lt list_eq
text_lt_total [] [] h k = cc
text_lt_total [] (d ∷ t) h k = cc
text_lt_total (c ∷ s) [] h k = refl
text_lt_total (c ∷ s) (d ∷ t) h k = ground (arith, text_lt_total s t)

abbrev pub before : BackupFile → BackupFile → Bool
before a b = text_lt b.path a.path

-- Each file of the list is older than `a`.
abbrev pub Oldest : BackupFile → List BackupFile → Type 0
Oldest a files = All (λ b. before a b ≡ true) files

-- Each file comes before the older ones.
abbrev pub Descending : List BackupFile → Type 0
Descending [] = Unit
Descending (a ∷ files) = Oldest a files × Descending files

-- No file of the list has the path of `a`.
abbrev pub Apart : BackupFile → List BackupFile → Type 0
Apart a files = All (λ b. (b.path == a.path) ≡ false) files

-- No two files have one path.
abbrev pub Separate : List BackupFile → Type 0
Separate [] = Unit
Separate (a ∷ files) = Apart a files × Separate files

-- How many of the files are younger than `f`, by the order of their paths.
abbrev pub younger : BackupFile → List BackupFile → ℕ
younger f files = length (retain (λ g. before g f) files)

abbrev pub paths : List BackupFile → List Text
paths files = map (λ f. f.path) files

paths-Apart :
    (a : BackupFile) (files : List BackupFile) → member a.path (paths files) ≡ false → Apart a files
unfolding member
paths-Apart a [] h = tt
paths-Apart a (b ∷ files) h = (
  ground (arith, list_eq_iff b.path a.path, list_eq_iff a.path b.path),
  paths-Apart a files (ground arith),
)

pub paths-Separate : (files : List BackupFile) → Distinct (paths files) → Separate files
paths-Separate [] d = tt
paths-Separate (a ∷ files) (fresh, d) = (paths-Apart a files fresh, paths-Separate files d)

pub retain-Separate : (files : List BackupFile) → Separate files → Separate (retain is_backup files)
retain-Separate [] d = tt
retain-Separate (a ∷ files) (apart, d) = elim (Bool-cases (is_backup a)) [
  | inl backup ↦ rw backup (All-retain _ is_backup files apart, retain-Separate files d)
  | inr other ↦ rw other (retain-Separate files d)
]

below :
    (a b : BackupFile) (files : List BackupFile)
    → before a b ≡ true
    → Oldest b files
    → Oldest a files
below a b [] h all = tt
below a b (g ∷ files) h (k, all) = (text_lt_trans g.path b.path a.path k h, below a b files h all)

pub All-insert_sorted :
    (P : BackupFile → Type 0) (a : BackupFile) (files : List BackupFile)
    → P a
    → All P files
    → All P (insert_sorted before a files)
unfolding insert_sorted
All-insert_sorted P a [] p all = (p, tt)
All-insert_sorted P a (b ∷ files) p (q, all) = elim (Bool-cases (before b a)) [
  | inl younger ↦ rw younger (q, All-insert_sorted P a files p all)
  | inr older ↦ rw older (p, (q, all))
]

insert_sorted-Descending :
    (a : BackupFile) (files : List BackupFile)
    → Apart a files
    → Descending files
    → Descending (insert_sorted before a files)
unfolding insert_sorted
insert_sorted-Descending a [] apart d = (tt, tt)
insert_sorted-Descending a (b ∷ files) (other, apart) (all, d) = elim (Bool-cases (before b a)) [
  | inl first ↦ rw first (
    All-insert_sorted (λ g. before b g ≡ true) a files first all,
    insert_sorted-Descending a files apart d,
  )
  | inr later ↦
      let older = text_lt_total a.path b.path later other in
      rw later ((older, below a b files older all), (all, d))
]

pub All-sort_by :
    (P : BackupFile → Type 0) (files : List BackupFile) → All P files → All P (sort_by before files)
unfolding sort_by
All-sort_by P [] all = tt
All-sort_by P (a ∷ files) (p, all) =
    All-insert_sorted P a (sort_by before files) p (All-sort_by P files all)

pub sort_by-Descending :
    (files : List BackupFile) → Separate files → Descending (sort_by before files)
unfolding sort_by
sort_by-Descending [] d = tt
sort_by-Descending (a ∷ files) (apart, d) =
    insert_sorted-Descending a (sort_by before files)
      (All-sort_by (λ b. (b.path == a.path) ≡ false) files apart) (sort_by-Descending files d)
