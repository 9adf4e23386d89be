-- ===== src/DataStorage/View.antt =====
-- What a view shows of the storage.
use libquicr.Prelude.{
  ℕ, zero, suc, ◌-◌, ◌^◌, ◌≤◌, ◌<◌, ◌≡◌, refl, sym, ◌∙◌, ap, Option, none, some, ok, arith, length,
  length-drop, drop, take, All, inl, inr,
}
use libquicr.DataStorage.{
  DataStorage, Iterator, iterator_at, next, read_to, or_size, clamp, DataStorageDynView, view_size,
  view_bytes, subspan,
}
use libquicr.DataStorage.Traverse.{
  all_bytes, HasBytes, bytes_ahead, IsUsable, iterator_at-IsUsable, step, size-all_bytes,
}

next_lem :
    (n : ℕ) (it : Iterator)
    → IsUsable it
    → n ≤ length (bytes_ahead it)
    → (after : Iterator) × (next n it ≡ ok after)
      × IsUsable after
      × (bytes_ahead after ≡ drop n (bytes_ahead it))
unfolding next
next_lem zero it u h = (it, refl, u, refl)
next_lem (suc n) it u h = elim (step it u) [
  | inl (end, none_left) ↦ absurd (omega (arith, h, ap length none_left))
  | inr s ↦
      let (after, moved, usable, left) =
        next_lem n s.after s.usable (omega (arith, h, ap length s.split)) in
      (after, rw s.moved moved, usable, left ∙ sym (ap (drop (suc n)) s.split))
]

read_to_lem :
    (n : ℕ) (it : Iterator)
    → IsUsable it
    → n ≤ length (bytes_ahead it)
    → read_to n it ≡ ok (take n (bytes_ahead it))
unfolding read_to
read_to_lem zero it u h = refl
read_to_lem (suc n) it u h = elim (step it u) [
  | inl (end, none_left) ↦ absurd (omega (arith, h, ap length none_left))
  | inr s ↦
      let rest = read_to_lem n s.after s.usable (omega (arith, h, ap length s.split)) in
      rw (s.seen, s.moved, rest, s.split) refl
]

abbrev pub end_at : Option ℕ → DataStorage → ℕ
end_at none storage = length (all_bytes storage)
end_at (some n) storage = n

or_size_lem :
    (end_pos : Option ℕ) (storage : DataStorage) → or_size end_pos storage ≡ end_at end_pos storage
or_size_lem none storage = size-all_bytes storage
or_size_lem (some n) storage = refl

abbrev pub end_of : DataStorageDynView → ℕ
end_of v = end_at v.end_pos v.storage

view_size_lem :
    (v : DataStorageDynView)
    → v.start_pos ≤ end_of v
    → end_of v < 2 ^ 64
    → view_size v ≡ end_of v - v.start_pos
unfolding view_size
view_size_lem v h low = rw (or_size_lem v.end_pos v.storage) (omega (arith, h, low))

-- A view shows the bytes of the storage from its start to its end, which is that of the storage when it
-- has none, if its start is not behind its end, its end not behind that of the storage, and no slice is
-- empty.
pub view_bytes_lem :
    (v : DataStorageDynView)
    → All HasBytes v.storage
    → v.start_pos ≤ end_of v
    → end_of v ≤ length (all_bytes v.storage)
    → length (all_bytes v.storage) < 2 ^ 64
    → view_bytes v ≡ ok (take (end_of v - v.start_pos) (drop v.start_pos (all_bytes v.storage)))
unfolding view_bytes
view_bytes_lem v h from to low =
    let (usable, all) = iterator_at-IsUsable v.storage h in
    let (after, moved, there, left) =
      next_lem v.start_pos (iterator_at v.storage) usable (rw all (omega (arith, from, to))) in
    let left' = left ∙ ap (drop v.start_pos) all in
    let enough : end_of v - v.start_pos ≤ length (bytes_ahead after) =
      rw left' (omega (arith, from, to, length-drop v.start_pos (all_bytes v.storage))) in
    rw (moved, view_size_lem v from (omega (arith, to, low)))
      (read_to_lem (end_of v - v.start_pos) after there enough
        ∙ ap (λ bytes. ok (take (end_of v - v.start_pos) bytes)) left')

clamp_lem : (end_pos : Option ℕ) (n : ℕ) → clamp end_pos n ≤ n
clamp_lem none n = omega arith
clamp_lem (some e) n = ground arith

-- A subspan shows the bytes of the storage from the given start to the given end, or to the end of the
-- storage when that comes first or no end is given, whatever part its own view shows; the start is not
-- behind that end, and no slice is empty.
pub view_bytes-subspan :
    (start_pos : ℕ) (end_pos : Option ℕ) (v : DataStorageDynView)
    → All HasBytes v.storage
    → (let end = clamp end_pos (length (all_bytes v.storage)) in
        start_pos ≤ end
        → length (all_bytes v.storage) < 2 ^ 64
        → view_bytes (subspan start_pos end_pos v)
          ≡ ok (take (end - start_pos) (drop start_pos (all_bytes v.storage))))
unfolding subspan
view_bytes-subspan start_pos end_pos v h from low =
    let total = length (all_bytes v.storage) in
    rw (size-all_bytes v.storage) (
      view_bytes_lem
        (record {
          storage = v.storage;
          start_pos = start_pos;
          end_pos = some (clamp end_pos total);
        })
        h from (clamp_lem end_pos total) low)
