-- ===== src/Common/Auth.antt =====
-- crates/tailsvc-common/src/auth.rs. Argon2 and the generator of random bytes are parameters.
pub mod Equality
use tailroute.Base.{
  arith, ℕ, ◌≡◌, Result, map_err, Bool, true, false, ok, Option, none, some, List, [], ◌∷◌, ◌++◌,
  nat_eq, length, not, if◌then◌else◌,
}
use tailroute.Base.Text.{Text, text}
use Prim.Native.Nat.{bit_or, bit_xor}

-- The password hash in use. A hash is a text; a text that is no hash has no parsed form.
pub record Argon2 : Type 0 where
  pub hash_password : Text → Text → Result Text Text
  pub parse_hash : Text → Option Text
  pub verify_password : Text → Text → Bool

-- What the program relies on: a password verifies against its own hash.
pub record IsArgon2 (argon : Argon2) : Type 0 where
  pub verifies :
      (token salt hash : Text)
      → argon.hash_password token salt ≡ ok hash
      → (parsed : Text) × (argon.parse_hash hash ≡ some parsed)
        × (argon.verify_password token parsed ≡ true)

module _ (argon : Argon2) where
  -- `salt` is the random salt that the call draws.
  unfoldable pub hash_token : Text → Text → Result Text Text
  hash_token salt token = map_err (λ e. text "argon2 hash: " ++ e) (argon.hash_password token salt)

  unfoldable pub verify_token : Text → Text → Bool
  verify_token hash token = elim (argon.parse_hash hash) [
    | none ↦ false
    | some parsed ↦ argon.verify_password token parsed
  ]

-- The loop over the two byte strings; `diff` is the accumulated difference.
diff_from : ℕ → List ℕ → List ℕ → ℕ
diff_from diff [] _ = diff
diff_from diff (x ∷ a) [] = diff
diff_from diff (x ∷ a) (y ∷ b) = diff_from (bit_or diff (bit_xor x y)) a b

pub constant_time_eq : List ℕ → List ℕ → Bool
constant_time_eq a b =
    if not (nat_eq (length a) (length b)) then false else nat_eq (diff_from 0 a b) 0

module _ (argon : Argon2) (laws : IsArgon2 argon) where
  -- A token verifies against each hash that `hash_token` makes of it, whatever the salt. The
  -- condition: the password hash verifies what it has hashed.
  pub verify-hash :
      (token salt hash : Text)
      → hash_token argon salt token ≡ ok hash
      → verify_token argon hash token ≡ true
  unfolding hash_token verify_token
  verify-hash token salt hash e =
      let hashed : argon.hash_password token salt ≡ ok hash = ground arith in
      let (parsed, p, v) = laws.verifies token salt hash hashed in ground arith
