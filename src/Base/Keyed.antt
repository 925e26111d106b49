-- ===== src/Base/Keyed.antt =====
-- Rows with a key: no key stands in two rows, whatever a statement of the program does to them.
use tailroute.Base.Tests.{is_some}
use tailroute.Base.Lists.{any, find}
use tailroute.Base.Keys.{Eq, ◌==◌, member, Distinct, Distinct-concat}
use mathlib.Core.Path.{◌≡◌, refl, sym, ◌∙◌, subst}
use mathlib.Core.Bool.{false}
use mathlib.Core.List.{List, [], ◌∷◌, ◌++◌, map}
use native.Mathlib.Omega.{arith}

module _ {A K : Type 0} ⦃e : Eq K⦄ (key : A → K) where
  -- An update that leaves the keys as they are.
  module _ (f : A → A) (same : (a : A) → key (f a) ≡ key a) where
    keys-map : (rows : List A) → map key (map f rows) ≡ map key rows
    keys-map [] = refl
    keys-map (a ∷ rows) = cc (same a, keys-map rows)

    pub map-Distinct : (rows : List A) → Distinct (map key rows) → Distinct (map key (map f rows))
    map-Distinct rows d = subst (λ ks. Distinct ks) (sym (keys-map rows)) d

  member-any : (k : K) (rows : List A) → member k (map key rows) ≡ any (λ a. key a == k) rows
  unfolding member
  member-any k [] = refl
  member-any k (a ∷ rows) = rw (member-any k rows) refl

  any-find :
      (k : K) (rows : List A) → any (λ a. key a == k) rows ≡ is_some (find (λ a. key a == k) rows)
  any-find k [] = refl
  any-find k (a ∷ rows) = ground (arith, any-find k rows)

  keys-append : (a : A) (rows : List A) → map key (rows ++ a ∷ []) ≡ map key rows ++ key a ∷ []
  keys-append a [] = refl
  keys-append a (r ∷ rows) = cc (keys-append a rows)

  -- A new row, with a key that was tested for.
  pub append-Distinct :
      (a : A) (rows : List A)
      → Distinct (map key rows)
      → any (λ r. key r == key a) rows ≡ false
      → Distinct (map key (rows ++ a ∷ []))
  append-Distinct a rows d fresh =
      subst (λ ks. Distinct ks) (sym (keys-append a rows))
        (Distinct-concat (map key rows) (key a) d (member-any (key a) rows ∙ fresh))

  pub append_found-Distinct :
      (a : A) (rows : List A)
      → Distinct (map key rows)
      → is_some (find (λ r. key r == key a) rows) ≡ false
      → Distinct (map key (rows ++ a ∷ []))
  append_found-Distinct a rows d fresh = append-Distinct a rows d (any-find (key a) rows ∙ fresh)
