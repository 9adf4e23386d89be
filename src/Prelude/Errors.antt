-- ===== src/Prelude/Errors.antt =====
-- How a C++ call ends: with a value, by an exception, or outside what the language defines.
-- `unfinished` is the model's own: a loop has used up its fuel.
use mathlib.Core.Path.{◌≡◌, refl}
use Prim.Native.Nat.{ℕ}

pub data Exception : Type 0 where
  invalid_argument protocol_violation bad_any_cast bad_optional_access : Exception
  length_error bad_alloc out_of_range : Exception
  transport_error : ℕ → Exception

pub data Outcome {ℓ} (A : Type ℓ) : Type ℓ where
  ok : A → Outcome A
  throws : Exception → Outcome A
  undefined unfinished : Outcome A

infixl 5 ◌>>=◌
abbrev pub ◌>>=◌ {ℓ κ} : {A : Type ℓ} {B : Type κ} → Outcome A → (A → Outcome B) → Outcome B
ok a >>= f = f a
throws e >>= f = throws e
undefined >>= f = undefined
unfinished >>= f = unfinished

-- Where the whole gives a value, its first part does.
pub bind_ok :
    {A B : Type 0} (m : Outcome A) (k : A → Outcome B) (b : B)
    → (m >>= k) ≡ ok b
    → (a : A) × (m ≡ ok a) × (k a ≡ ok b)
bind_ok (ok a) k b h = (a, refl, h)
bind_ok (throws e) k b h = cc
bind_ok undefined k b h = cc
bind_ok unfinished k b h = cc
