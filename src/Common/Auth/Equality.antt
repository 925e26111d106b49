-- ===== src/Common/Auth/Equality.antt =====
-- The comparison in constant time of crates/tailsvc-common/src/auth.rs decides equality.
use tailroute.Base.{
  ℕ, ◌≡◌, ◌↔◌, refl, inl, inr, arith, Bool-cases, true, List, [], ◌∷◌, length, nat_eq, nat_eq_iff,
}
use tailroute.Base.Bits.{bit_xor-zero, bit_xor_self, bit_or-zero}
use tailroute.Common.Auth.{diff_from, constant_time_eq}
use Prim.Native.Nat.{bit_or, bit_xor}

diff_from-zero :
    (diff : ℕ) (a b : List ℕ) → length a ≡ length b → diff_from diff a b ≡ 0 → (diff ≡ 0) × (a ≡ b)
unfolding diff_from
diff_from-zero diff [] [] l e = (e, refl)
diff_from-zero diff [] (y ∷ b) l e = absurd (omega arith)
diff_from-zero diff (x ∷ a) [] l e = absurd (omega arith)
diff_from-zero diff (x ∷ a) (y ∷ b) l e =
    let (clear, rest) = diff_from-zero (bit_or diff (bit_xor x y)) a b (omega arith) e in
    let (d, same) = bit_or-zero diff (bit_xor x y) clear in (d, cc (bit_xor-zero x y same, rest))

diff_from_self : (a : List ℕ) → diff_from 0 a a ≡ 0
unfolding diff_from
diff_from_self [] = refl
diff_from_self (x ∷ a) = rw (bit_xor_self x) (diff_from_self a)

-- The comparison in constant time holds exactly of equal byte strings, so that nothing but the
-- admin's own name and password passes it.
pub constant_time_eq_iff : (a b : List ℕ) → (constant_time_eq a b ≡ true) ↔ (a ≡ b)
unfolding constant_time_eq
constant_time_eq_iff a b = (forth, back)
  where
    forth : constant_time_eq a b ≡ true → a ≡ b
    forth e = elim (Bool-cases (nat_eq (length a) (length b))) [
      | inl same ↦
          (diff_from-zero 0 a b ((nat_eq_iff (length a) (length b)).0 same)
            ((nat_eq_iff (diff_from 0 a b) 0).0 (rw same at e))).1
      | inr other ↦ let bad = rw other at e in absurd (cc)
    ]

    back : a ≡ b → constant_time_eq a b ≡ true
    back e = rw e (rw ((nat_eq_iff (length b) (length b)).1 refl, diff_from_self b) refl)
