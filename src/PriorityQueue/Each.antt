-- ===== src/PriorityQueue/Each.antt =====
-- Predicates on the values of a map and on what a call returns.
use mathlib.Core.Path.{subst}
use libquicr.Prelude.{
  ℕ, ◌≡◌, refl, some, List, [], ◌∷◌, arith, Bool-cases, inl, inr, ltb, ◌==◌, Outcome, ok, throws,
  undefined, unfinished, ◌>>=◌,
}
use libquicr.Cache.Map.{lookup, assign, erase}

module _ {V : Type 0} (P : V → Type 0) where
  abbrev pub Each : List (ℕ × V) → Type 0
  Each [] = Unit
  Each ((k, v) ∷ m) = P v × Each m

  pub Each-assign : (k : ℕ) (v : V) (m : List (ℕ × V)) → P v → Each m → Each (assign k v m)
  Each-assign k v [] p h = (p, tt)
  Each-assign k v ((j, w) ∷ m) p (q, h) = elim (Bool-cases (k == j)) [
    | inl t ↦ rw t (p, h)
    | inr f ↦ rw f (elim (Bool-cases (ltb k j)) [
      | inl t ↦ rw t (p, (q, h))
      | inr g ↦ rw g (q, Each-assign k v m p h)
    ])
  ]

  pub Each-erase : (k : ℕ) (m : List (ℕ × V)) → Each m → Each (erase k m)
  Each-erase k [] h = tt
  Each-erase k ((j, w) ∷ m) (q, h) = elim (Bool-cases (k == j)) [
    | inl t ↦ rw t h
    | inr f ↦ rw f (q, Each-erase k m h)
  ]

  pub lookup_each : (k : ℕ) (m : List (ℕ × V)) (v : V) → Each m → lookup k m ≡ some v → P v
  lookup_each k [] v h e = cc
  lookup_each k ((j, w) ∷ m) v (q, h) e = elim (Bool-cases (k == j)) [
    | inl t ↦ subst P (let s : w ≡ v = ground (arith, t, e) in s) q
    | inr f ↦ lookup_each k m v h (ground (arith, f, e))
  ]

-- What a call that returns a value leaves.
abbrev pub OnOk : {B : Type 0} → (B → Type 0) → Outcome B → Type 0
OnOk P (ok b) = P b
OnOk P _ = Unit

pub OnOk-bind :
    {B C : Type 0} (P : B → Type 0) (Q : C → Type 0) (r : Outcome B) (k : B → Outcome C)
    → OnOk P r
    → ((b : B) → P b → OnOk Q (k b))
    → OnOk Q (r >>= k)
OnOk-bind P Q (ok b) k h next = next b h
OnOk-bind P Q (throws e) k h next = tt
OnOk-bind P Q undefined k h next = tt
OnOk-bind P Q unfinished k h next = tt

pub OnOk-intro :
    {B : Type 0} (P : B → Type 0) (r : Outcome B) → ((b : B) → r ≡ ok b → P b) → OnOk P r
OnOk-intro P (ok b) h = h b refl
OnOk-intro P (throws e) h = tt
OnOk-intro P undefined h = tt
OnOk-intro P unfinished h = tt
