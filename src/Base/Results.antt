-- ===== src/Base/Results.antt =====
-- Results of fallible functions, with `?` as the bind of a `do` block.
use mathlib.Core.Path.{◌≡◌, refl}
use mathlib.Core.Logic.{◌⊎◌, inl, inr}
use mathlib.Core.Option.{Option, none, some}

pub data Result {ℓ} (A E : Type ℓ) : Type ℓ where
  ok : A → Result A E
  err : E → Result A E

infixl 5 ◌>>=◌ ◌>>◌
abbrev pub ◌>>=◌ {ℓ} : {A B E : Type ℓ} → Result A E → (A → Result B E) → Result B E
err failure >>= next = err failure
ok value >>= next = next value

abbrev pub ◌>>◌ {ℓ} : {A B E : Type ℓ} → Result A E → Result B E → Result B E
first >> next = first >>= λ _. next

module _ {ℓ} {A E : Type ℓ} where
  -- `map_err`
  abbrev pub map_err : {F : Type ℓ} → (E → F) → Result A E → Result A F
  map_err f (ok a) = ok a
  map_err f (err e) = err (f e)

  -- `ok()`
  abbrev pub to_option : Result A E → Option A
  to_option (ok a) = some a
  to_option (err e) = none

  -- `ok_or`
  abbrev pub ok_or : Option A → E → Result A E
  ok_or none e = err e
  ok_or (some a) e = ok a

  pub Result-cases : (r : Result A E) → ((a : A) × (r ≡ ok a)) ⊎ ((e : E) × (r ≡ err e))
  Result-cases (ok a) = inl (a, refl)
  Result-cases (err e) = inr (e, refl)

  -- Inversion of a successful bind, for proofs where the parts stay shut.
  pub >>=-eq-ok :
      {B : Type ℓ} (first : Result A E) (next : A → Result B E) {value : B}
      → (first >>= next) ≡ ok value
      → (between : A) × (first ≡ ok between) × (next between ≡ ok value)
  >>=-eq-ok (err failure) next e = cc
  >>=-eq-ok (ok between) next e = (between, refl, e)

-- What `tokio::time::timeout(…).await` yields; an error is its text.
pub data Timed {ℓ} (A E : Type ℓ) : Type ℓ where
  finished : Result A E → Timed A E
  elapsed : Timed A E
