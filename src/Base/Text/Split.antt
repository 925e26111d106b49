-- ===== src/Base/Text/Split.antt =====
-- Splitting a text at a character and joining it again are inverse.
use tailroute.Base.Tests.{nat_eq, nat_eq_iff, Bool-cases}
use tailroute.Base.Lists.{All}
use tailroute.Base.Text.{Text, split, cons_head, join}
use Prim.Native.Nat.{ℕ}
use mathlib.Core.Path.{◌≡◌, refl, ap, ◌∙◌}
use mathlib.Core.Logic.{◌≢◌, inl, inr}
use mathlib.Core.Bool.{true, false}
use mathlib.Core.List.{List, [], ◌∷◌}

module _ (sep : ℕ) where
  -- No character of the text is the separator.
  abbrev pub NoSep : Text → Type 0
  NoSep s = All (λ c. nat_eq sep c ≡ false) s

  pub split-cons : (s : Text) → (w : Text) × (ws : List Text) × (split sep s ≡ w ∷ ws)
  unfolding split
  split-cons [] = ([], [], refl)
  split-cons (c ∷ s) = elim (Bool-cases (nat_eq sep c)) [
    | inl e ↦ ([], split sep s, rw e)
    | inr e ↦ let (w, ws, h) = split-cons s in (c ∷ w, ws, rw (e, h))
  ]

  join-cons_head :
      (c : ℕ) (ws : List Text) → ws ≢ [] → join (sep ∷ []) (cons_head c ws) ≡ c ∷ join (sep ∷ []) ws
  unfolding join
  join-cons_head c [] h = absurd (h refl)
  join-cons_head c (w ∷ []) h = refl
  join-cons_head c (w ∷ v ∷ ws) h = refl

  split-ne-nil : (s : Text) → split sep s ≢ []
  split-ne-nil s h = let (w, ws, e) = split-cons s in cc

  join_nil_cons : (ws : List Text) → ws ≢ [] → join (sep ∷ []) ([] ∷ ws) ≡ sep ∷ join (sep ∷ []) ws
  unfolding join
  join_nil_cons [] h = absurd (h refl)
  join_nil_cons (w ∷ ws) h = refl

  split_at : (c : ℕ) (s : Text) → nat_eq sep c ≡ true → split sep (c ∷ s) ≡ [] ∷ split sep s
  unfolding split
  split_at c s e = rw e

  split_within :
      (c : ℕ) (s : Text) → nat_eq sep c ≡ false → split sep (c ∷ s) ≡ cons_head c (split sep s)
  unfolding split
  split_within c s e = rw e

  pub join-split : (s : Text) → join (sep ∷ []) (split sep s) ≡ s
  join-split [] = unfold join split in refl
  join-split (c ∷ s) = elim (Bool-cases (nat_eq sep c)) [
    | inl e ↦
        ap (join (sep ∷ [])) (split_at c s e)
        ∙ join_nil_cons (split sep s) (split-ne-nil s)
        ∙ ap (λ x. sep ∷ x) (join-split s)
        ∙ ap (λ x. x ∷ s) ((nat_eq_iff sep c).0 e)
    | inr e ↦
        ap (join (sep ∷ [])) (split_within c s e)
        ∙ join-cons_head c (split sep s) (split-ne-nil s)
        ∙ ap (λ x. c ∷ x) (join-split s)
  ]

  pub split-join :
      (w : Text) (ws : List Text)
      → All NoSep (w ∷ ws)
      → split sep (join (sep ∷ []) (w ∷ ws)) ≡ w ∷ ws
  unfolding split join
  split-join [] [] h = refl
  split-join [] (v ∷ vs) (_, h) =
      rw ((nat_eq_iff sep sep).1 refl) (ap (λ x. [] ∷ x) (split-join v vs h))
  split-join (x ∷ w) [] ((p, h), k) = rw (p, split-join w [] (h, k))
  split-join (x ∷ w) (v ∷ vs) ((p, h), k) = rw (p, split-join w (v ∷ vs) (h, k))

  -- The parts of a split text have no separator.
  pub split-NoSep : (s : Text) → All NoSep (split sep s)
  unfolding split
  split-NoSep [] = (tt, tt)
  split-NoSep (c ∷ s) = elim (Bool-cases (nat_eq sep c)) [
    | inl e ↦ rw e (tt, split-NoSep s)
    | inr e ↦ rw e (cons_head-NoSep c (split sep s) e (split-NoSep s))
  ]
    where
      cons_head-NoSep :
          (c : ℕ) (ws : List Text)
          → nat_eq sep c ≡ false
          → All NoSep ws
          → All NoSep (cons_head c ws)
      cons_head-NoSep c [] e h = ((e, tt), tt)
      cons_head-NoSep c (w ∷ ws) e (p, h) = ((e, p), h)
