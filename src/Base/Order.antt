-- ===== src/Base/Order.antt =====
-- The order of texts by their code points, which is that of their UTF-8 bytes, and sorting by it.
use tailroute.Base.Tests.{ltb, nat_eq, if◌then◌else◌}
use tailroute.Base.Text.{Text}
use Prim.Native.Nat.{ℕ}
use mathlib.Core.Bool.{Bool, true, false, ◌&&◌, ◌||◌}
use mathlib.Core.List.{List, [], ◌∷◌}

unfoldable pub text_lt : Text → Text → Bool
text_lt [] [] = false
text_lt [] (_ ∷ _) = true
text_lt (_ ∷ _) [] = false
text_lt (c ∷ s) (d ∷ t) = ltb c d || (nat_eq c d && text_lt s t)

-- A stable insertion sort: `sort_by`, and `ORDER BY`.
module _ {ℓ} {A : Type ℓ} (before : A → A → Bool) where
  unfoldable pub insert_sorted : A → List A → List A
  insert_sorted a [] = a ∷ []
  insert_sorted a (b ∷ bs) = if before b a then b ∷ insert_sorted a bs else a ∷ b ∷ bs

  unfoldable pub sort_by : List A → List A
  unfolding insert_sorted
  sort_by [] = []
  sort_by (a ∷ as') = insert_sorted a (sort_by as')

-- `dedup`: of a run of equal numbers the first stays.
unfoldable pub dedup : List ℕ → List ℕ
dedup [] = []
dedup (a ∷ []) = a ∷ []
dedup (a ∷ b ∷ l) = let rest = dedup (b ∷ l) in if nat_eq a b then rest else a ∷ rest
