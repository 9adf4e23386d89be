-- ===== src/Cache/Map.antt =====
-- `std::map<K, std::shared_ptr<T>>`, as include/quicr/cache.h uses it: a list sorted by its keys.
use libquicr.Prelude.{
  ℕ, Bool, true, false, Option, none, some, List, [], ◌∷◌, ltb, leb, ◌==◌, if◌then◌else◌,
}

abbrev pub is_some : {B : Type 0} → Option B → Bool
is_some none = false
is_some (some b) = true

module _ {A : Type 0} where
  abbrev pub lookup : ℕ → List (ℕ × A) → Option A
  lookup k [] = none
  lookup k ((j, a) ∷ m) = if k == j then some a else lookup k m

  abbrev pub assign : ℕ → A → List (ℕ × A) → List (ℕ × A)
  assign k a [] = (k, a) ∷ []
  assign k a ((j, b) ∷ m) =
      if k == j then (k, a) ∷ m else if ltb k j then (k, a) ∷ (j, b) ∷ m else (j, b) ∷ assign k a m

  abbrev pub erase : ℕ → List (ℕ × A) → List (ℕ × A)
  erase k [] = []
  erase k ((j, b) ∷ m) = if k == j then m else (j, b) ∷ erase k m

  -- The entries from `lower_bound(k)` and from `upper_bound(k)` on.
  abbrev pub lower_bound : ℕ → List (ℕ × A) → List (ℕ × A)
  lower_bound k [] = []
  lower_bound k ((j, b) ∷ m) = if ltb j k then lower_bound k m else (j, b) ∷ m

  abbrev pub upper_bound : ℕ → List (ℕ × A) → List (ℕ × A)
  upper_bound k [] = []
  upper_bound k ((j, b) ∷ m) = if leb j k then upper_bound k m else (j, b) ∷ m

  abbrev pub first : List (ℕ × A) → Option A
  first [] = none
  first ((j, a) ∷ m) = some a

  abbrev pub last : List (ℕ × A) → Option A
  last [] = none
  last ((j, a) ∷ []) = some a
  last ((j, a) ∷ x ∷ m) = last (x ∷ m)
