-- ===== src/DataStorage/Traverse.antt =====
-- An iterator goes over the bytes of the storage.
use libquicr.Prelude.{
  ℕ, zero, suc, ◌<◌, ◌≡◌, ◌≢◌, refl, ◌∙◌, ap, true, false, Option, none, some, List, [], ◌∷◌, ◌++◌,
  ok, ◌==◌, ltb, arith, length, length-append, drop, drop_all, ◌⊎◌, All, Bool-cases, inl, inr,
}
use libquicr.DataStorage.{
  DataStorage, size, Iterator, iterator_at, element, dereference, increment, is_end, traverse,
}

-- The abstract storage: one sequence of bytes.
unfoldable pub all_bytes : DataStorage → List ℕ
all_bytes [] = []
all_bytes (slice ∷ slices) = slice ++ all_bytes slices

abbrev pub HasBytes : List ℕ → Type 0
HasBytes slice = slice ≢ []

-- The bytes that an iterator has ahead of it, and when it can be used.
abbrev bytes_at : List (List ℕ) → Option ℕ → List ℕ
bytes_at (slice ∷ slices) (some n) = drop n slice ++ all_bytes slices
bytes_at _ _ = []

abbrev pub bytes_ahead : Iterator → List ℕ
bytes_ahead it = bytes_at it.ahead it.span_it

abbrev IsUsableAt : List (List ℕ) → Option ℕ → Type 0
IsUsableAt [] none = Unit
IsUsableAt (slice ∷ slices) (some n) = (n < length slice) × All HasBytes slices
IsUsableAt _ _ = ⊥

abbrev pub IsUsable : Iterator → Type 0
IsUsable it = IsUsableAt it.ahead it.span_it

pub iterator_at-IsUsable :
    (slices : DataStorage)
    → All HasBytes slices
    → IsUsable (iterator_at slices) × (bytes_ahead (iterator_at slices) ≡ all_bytes slices)
unfolding all_bytes
iterator_at-IsUsable [] h = (tt, refl)
iterator_at-IsUsable ([] ∷ slices) (h, hs) = absurd (h refl)
iterator_at-IsUsable ((x ∷ xs) ∷ slices) (h, hs) = ((omega arith, hs), refl)

-- An element and what is behind it.
drop_lem :
    (n : ℕ) (xs : List ℕ)
    → n < length xs
    → (x : ℕ) × (element n xs ≡ ok x) × (drop n xs ≡ x ∷ drop (suc n) xs)
drop_lem n [] h = absurd (omega (arith, h))
drop_lem zero (x ∷ xs) h = (x, refl, refl)
drop_lem (suc n) (x ∷ xs) h = drop_lem n xs (omega (arith, h))

-- One step: the byte there, and the iterator behind it.
pub record Stepped (it : Iterator) : Type 0 where
  pub byte : ℕ
  pub after : Iterator
  pub more : is_end it ≡ false
  pub seen : dereference it ≡ ok byte
  pub moved : increment it ≡ ok after
  pub split : bytes_ahead it ≡ byte ∷ bytes_ahead after
  pub usable : IsUsable after

step_in :
    (slice : List ℕ) (slices : DataStorage) (n : ℕ)
    → n < length slice
    → All HasBytes slices
    → Stepped (record { ahead = slice ∷ slices; span_it = some n })
unfolding dereference increment all_bytes
step_in slice slices n h hs =
    let (x, here, split) = drop_lem n slice h in
    let inside : ltb n (length slice) ≡ true = ground (arith, h) in
    elim (Bool-cases (suc n == length slice)) [
      | inl last ↦
          let usable = iterator_at-IsUsable slices hs in
          let none_left = drop_all (suc n) slice (ground (arith, last)) in
          record {
            byte = x;
            after = iterator_at slices;
            more = refl;
            seen = here;
            moved = rw (inside, last) refl;
            split = rw (split, none_left) (rw usable.1 refl);
            usable = usable.0;
          }
      | inr inner ↦ record {
        byte = x;
        after = record { ahead = slice ∷ slices; span_it = some (suc n) };
        more = refl;
        seen = here;
        moved = rw (inside, inner) refl;
        split = rw split refl;
        usable = (ground (arith, h, inner), hs);
      }
    ]

-- A usable iterator is at the end, or it can take a step.
pub step : (it : Iterator) → IsUsable it → ((is_end it ≡ true) × (bytes_ahead it ≡ [])) ⊎ Stepped it
step it u = step_at it.ahead it.span_it u
  where
    step_at :
        (ahead : List (List ℕ)) (span_it : Option ℕ)
        → IsUsableAt ahead span_it
        → (let i : Iterator = record { ahead = ahead; span_it = span_it } in
            ((is_end i ≡ true) × (bytes_ahead i ≡ [])) ⊎ Stepped i)
    step_at [] none u = inl (refl, refl)
    step_at [] (some n) u = absurd u
    step_at (slice ∷ slices) none u = absurd u
    step_at (slice ∷ slices) (some n) (h, hs) = inr (step_in slice slices n h hs)

pub size-all_bytes : (storage : DataStorage) → size storage ≡ length (all_bytes storage)
unfolding size all_bytes
size-all_bytes [] = refl
size-all_bytes (slice ∷ slices) =
    rw (length-append slice (all_bytes slices), size-all_bytes slices) refl

traverse_lem :
    (fuel : ℕ) (it : Iterator)
    → IsUsable it
    → length (bytes_ahead it) < fuel
    → traverse fuel it ≡ ok (bytes_ahead it)
unfolding traverse
traverse_lem zero it u h = absurd (omega (arith, h))
traverse_lem (suc fuel) it u h = elim (step it u) [
  | inl (end, none_left) ↦ rw (end, none_left) refl
  | inr s ↦
      let shorter : length (bytes_ahead s.after) < fuel = omega (arith, h, ap length s.split) in
      rw (s.more, s.seen, s.moved, traverse_lem fuel s.after s.usable shorter, s.split) refl
]

-- Going from `begin()` to `end()` sees the bytes of all slices in order, when no slice is empty, and it
-- ends after as many steps as there are bytes.
pub traverse-all_bytes :
    (storage : DataStorage)
    → All HasBytes storage
    → traverse (suc (size storage)) (iterator_at storage) ≡ ok (all_bytes storage)
traverse-all_bytes storage h =
    let (usable, all) = iterator_at-IsUsable storage h in
    traverse_lem (suc (size storage)) (iterator_at storage) usable
      (rw all (omega (arith, size-all_bytes storage)))
    ∙ rw all refl
