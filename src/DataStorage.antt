-- ===== src/DataStorage.antt =====
-- include/quicr/detail/data_storage.h: bytes in shared slices, their iterators and the views of them.
-- The slices are those of pointers that are not null.
pub mod Traverse
pub mod View
mod Tests
use libquicr.Prelude.{
  ℕ, zero, suc, ◌+◌, Bool, true, false, Option, none, some, List, [], ◌∷◌, ◌++◌, Outcome, ok,
  undefined, unfinished, ◌>>=◌, if◌then◌else◌, ◌==◌, ltb, leb, sub64, length,
}

abbrev pub DataStorage : Type 0
DataStorage = List (List ℕ)

abbrev pub empty : DataStorage → Bool
empty [] = true
empty (slice ∷ slices) = false

-- `Push` of bytes, which are copied into a slice of their own, and of a slice.
abbrev pub push : List ℕ → DataStorage → DataStorage
push bytes buffer = buffer ++ (bytes ∷ [])

unfoldable pub size : DataStorage → ℕ
size [] = 0
size (slice ∷ slices) = length slice + size slices

-- The loop erases the slice that its own iterator stands at. Going on from there is undefined, also
-- when it was the last one.
unfoldable pub erase_front : ℕ → DataStorage → Outcome (ℕ × DataStorage)
erase_front len [] = ok (0, [])
erase_front len (slice ∷ slices) =
    if leb (length slice) len then undefined else ok (len, slice ∷ slices)

-- `Iterator`: the slices from `it_` to `end_it_`, and the position of `span_it_` in the first.
pub record Iterator : Type 0 where
  pub ahead : List (List ℕ)
  pub span_it : Option ℕ

-- The constructor, for `begin()`; `end()` is the one of no slices.
abbrev pub iterator_at : List (List ℕ) → Iterator
iterator_at [] = record { ahead = []; span_it = none }
iterator_at (slice ∷ slices) = record { ahead = slice ∷ slices; span_it = some 0 }

abbrev pub element : ℕ → List ℕ → Outcome ℕ
element n [] = undefined
element zero (x ∷ xs) = ok x
element (suc n) (x ∷ xs) = element n xs

abbrev dereference_at : List (List ℕ) → Option ℕ → Outcome ℕ
dereference_at (slice ∷ slices) (some n) = element n slice
dereference_at _ _ = undefined

-- `operator*`
unfoldable pub dereference : Iterator → Outcome ℕ
dereference it = dereference_at it.ahead it.span_it

abbrev increment_at : List (List ℕ) → Option ℕ → Outcome Iterator
increment_at (slice ∷ slices) (some n) =
    if ltb n (length slice)
    then (if suc n == length slice
        then ok (iterator_at slices)
        else ok (record { ahead = slice ∷ slices; span_it = some (suc n) }))
    else undefined
increment_at (slice ∷ slices) none = ok (iterator_at slices)
increment_at [] span_it = undefined

-- `operator++`; past the end of a slice or of the storage it is undefined.
unfoldable pub increment : Iterator → Outcome Iterator
increment it = increment_at it.ahead it.span_it

-- Whether it is equal to `end()`.
abbrev pub is_end : Iterator → Bool
is_end it = empty it.ahead

-- `for (auto it = begin(); it != end(); ++it)`, with the bytes that it sees.
unfoldable pub traverse : ℕ → Iterator → Outcome (List ℕ)
traverse zero it = unfinished
traverse (suc fuel) it =
    if is_end it
    then ok []
    else (do byte ← dereference it; it ← increment it; bytes ← traverse fuel it; ok (byte ∷ bytes))

-- `std::next(it, n)`
unfoldable pub next : ℕ → Iterator → Outcome Iterator
next zero it = ok it
next (suc n) it = increment it >>= next n

pub record DataStorageDynView : Type 0 where
  pub storage : DataStorage
  pub start_pos : ℕ
  pub end_pos : Option ℕ

abbrev pub or_size : Option ℕ → DataStorage → ℕ
or_size none storage = size storage
or_size (some end_pos) storage = end_pos

unfoldable pub view_size : DataStorageDynView → ℕ
view_size v = sub64 (or_size v.end_pos v.storage) v.start_pos

abbrev pub clamp : Option ℕ → ℕ → ℕ
clamp none n = n
clamp (some end_pos) n = if ltb n end_pos then n else end_pos

-- The positions are those of the storage, not of this view.
unfoldable pub subspan : ℕ → Option ℕ → DataStorageDynView → DataStorageDynView
subspan start_pos end_pos v = record {
  storage = v.storage;
  start_pos = start_pos;
  end_pos = some (clamp end_pos (size v.storage));
}

-- The bytes from an iterator up to the one `n` steps ahead.
unfoldable pub read_to : ℕ → Iterator → Outcome (List ℕ)
read_to zero it = ok []
read_to (suc n) it = do
  byte ← dereference it
  it ← increment it
  bytes ← read_to n it
  ok (byte ∷ bytes)

-- What lies between `begin()` and `end()` of a view.
unfoldable pub view_bytes : DataStorageDynView → Outcome (List ℕ)
view_bytes v = do it ← next v.start_pos (iterator_at v.storage); read_to (view_size v) it
