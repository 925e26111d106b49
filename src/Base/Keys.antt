-- ===== src/Base/Keys.antt =====
-- Types with a Boolean equality that decides paths: the keys of the program's maps.
use mathlib.Core.Path.{◌≡◌, refl}
use mathlib.Core.Logic.{◌↔◌, ◌≢◌}
use mathlib.Core.Bool.{Bool, true, false, ◌&&◌, ◌||◌}
use mathlib.Core.List.{List, [], ◌∷◌, ◌++◌}
use native.Mathlib.Omega.{arith}
use Prim.Native.Nat.{ℕ}
use tailroute.Base.Tests.{nat_eq, nat_eq_iff}

pub record Eq {ℓ} (A : Type ℓ) : Type ℓ where
  pub test : A → A → Bool
  pub test_iff : (a b : A) → (test a b ≡ true) ↔ (a ≡ b)

module _ {ℓ} {K : Type ℓ} ⦃key : Eq K⦄ where
  infix 50 ◌==◌
  abbrev pub ◌==◌ : K → K → Bool
  j == k = key.test j k

module _ {ℓ} {A : Type ℓ} ⦃e : Eq A⦄ where
  pub ==_iff : (a b : A) → ((a == b) ≡ true) ↔ (a ≡ b)
  ==_iff = e.test_iff

  pub ==_refl : (a : A) → (a == a) ≡ true
  ==_refl a = (e.test_iff a a).1 refl

  pub ==_ne : (a b : A) → a ≢ b → (a == b) ≡ false
  ==_ne a b h = ground (arith, e.test_iff a b)

  pub ==_sym : (a b : A) → (a == b) ≡ (b == a)
  ==_sym a b = ground (arith, e.test_iff a b, e.test_iff b a)

  unfoldable pub list_eq : List A → List A → Bool
  list_eq [] [] = true
  list_eq [] (_ ∷ _) = false
  list_eq (_ ∷ _) [] = false
  list_eq (x ∷ xs) (y ∷ ys) = (x == y) && list_eq xs ys

  pub list_eq_iff : (xs ys : List A) → (list_eq xs ys ≡ true) ↔ (xs ≡ ys)
  unfolding list_eq
  list_eq_iff [] [] = (λ _. refl, λ _. refl)
  list_eq_iff [] (_ ∷ _) = ground arith
  list_eq_iff (_ ∷ _) [] = ground arith
  list_eq_iff (x ∷ xs) (y ∷ ys) = ground (arith, e.test_iff x y, list_eq_iff xs ys)

instance abbrev pub nat_key : Eq ℕ
nat_key = record { test = nat_eq; test_iff = nat_eq_iff }

instance abbrev pub list_key {ℓ} : {A : Type ℓ} ⦃e : Eq A⦄ → Eq (List A)
list_key ⦃e⦄ = record { test = list_eq ⦃e = e⦄; test_iff = list_eq_iff ⦃e = e⦄ }

unfoldable pub pair_eq {ℓ} : {A B : Type ℓ} ⦃e : Eq A⦄ ⦃f : Eq B⦄ → A × B → A × B → Bool
pair_eq p q = (p.0 == q.0) && (p.1 == q.1)

pub pair_eq_iff {ℓ} :
    {A B : Type ℓ} ⦃e : Eq A⦄ ⦃f : Eq B⦄ (p q : A × B) → (pair_eq p q ≡ true) ↔ (p ≡ q)
unfolding pair_eq
pair_eq_iff ⦃e⦄ ⦃f⦄ p q = ground (arith, e.test_iff p.0 q.0, f.test_iff p.1 q.1)

instance abbrev pub pair_key {ℓ} : {A B : Type ℓ} ⦃e : Eq A⦄ ⦃f : Eq B⦄ → Eq (A × B)
pair_key ⦃e⦄ ⦃f⦄ = record { test = pair_eq ⦃e = e⦄ ⦃f = f⦄; test_iff = pair_eq_iff ⦃e = e⦄ ⦃f = f⦄ }

-- Membership of a set, and lists without repetition.
module _ {ℓ} {A : Type ℓ} ⦃e : Eq A⦄ where
  unfoldable pub member : A → List A → Bool
  member a [] = false
  member a (x ∷ xs) = (x == a) || member a xs

  pub member-cons : (a x : A) (xs : List A) → member a (x ∷ xs) ≡ ((x == a) || member a xs)
  unfolding member
  member-cons a x xs = refl

  pub member-append : (a : A) (xs ys : List A) → member a (xs ++ ys) ≡ (member a xs || member a ys)
  unfolding member
  member-append a [] ys = refl
  member-append a (x ∷ xs) ys = ground (arith, member-append a xs ys)

  abbrev pub Distinct : List A → Type 0
  Distinct [] = Unit
  Distinct (x ∷ xs) = (member x xs ≡ false) × Distinct xs

  pub Distinct-concat :
      (xs : List A) (a : A) → Distinct xs → member a xs ≡ false → Distinct (xs ++ a ∷ [])
  unfolding member
  Distinct-concat [] a d h = (refl, tt)
  Distinct-concat (x ∷ xs) a (fresh, d) h = (
    ground (arith, member-append x xs (a ∷ []), e.test_iff x a, e.test_iff a x),
    Distinct-concat xs a d (ground arith),
  )
