-- ===== src/TrackName/Entries.antt =====
-- The entries of a namespace are those that it was made of.
use libquicr.Prelude.{
  ℕ, ◌+◌, ◌≤◌, ◌≡◌, ◌↔◌, Bool-cases, inl, inr, refl, sym, true, false, ◌||◌, List, [], ◌∷◌, ◌++◌,
  map, append_assoc, ok, ◌>>=◌, ◌==◌, ltb, length, length-append, take, drop, take-append_self,
  drop-append_self, arith,
}
use libquicr.TrackName.{
  TrackNamespace, flat, spans, respan, span_bytes, get_entries, copy, make, list_eq, equal,
}

span_bytes-spans :
    (before : List ℕ) (entries : List (List ℕ))
    → map (span_bytes (before ++ flat entries)) (spans (length before) entries) ≡ entries
span_bytes-spans before [] = refl
span_bytes-spans before (entry ∷ entries) =
    let bytes = before ++ (entry ++ flat entries) in
    let here : take (length entry) (drop (length before) bytes) ≡ entry =
      rw (drop-append_self before (entry ++ flat entries), take-append_self entry (flat entries))
        refl in
    let behind : map (span_bytes bytes) (spans (length before + length entry) entries) ≡ entries =
      rw (sym (append_assoc before entry (flat entries)), sym (length-append before entry))
        (span_bytes-spans (before ++ entry) entries) in
    rw (here, behind) refl

respan-spans :
    (offset : ℕ) (entries : List (List ℕ))
    → respan offset (spans offset entries) ≡ spans offset entries
respan-spans offset [] = refl
respan-spans offset (entry ∷ entries) = rw (respan-spans (offset + length entry) entries) refl

-- From 1 to 32 entries make a namespace that has just these entries, and so has every copy of it.
pub get_entries-make :
    (hash : List ℕ → ℕ) (entries : List (List ℕ))
    → 1 ≤ length entries
    → length entries ≤ 32
    → ((make hash entries >>= λ n. ok (get_entries n)) ≡ ok entries)
      × ((make hash entries >>= λ n. ok (get_entries (copy n))) ≡ ok entries)
unfolding make get_entries copy
get_entries-make hash entries some_entries few =
    let fits : (ltb 32 (length entries) || length entries == 0) ≡ false =
      ground (arith, some_entries, few) in
    (
      rw (fits, span_bytes-spans [] entries) refl,
      rw (fits, respan-spans 0 entries, span_bytes-spans [] entries) refl,
    )

list_eq_refl : (xs : List ℕ) → list_eq xs xs ≡ true
list_eq_refl [] = refl
list_eq_refl (x ∷ xs) = ground (arith, list_eq_refl xs)

list_eq-true : (xs ys : List ℕ) → list_eq xs ys ≡ true → xs ≡ ys
list_eq-true [] [] h = refl
list_eq-true [] (y ∷ ys) h = cc
list_eq-true (x ∷ xs) [] h = cc
list_eq-true (x ∷ xs) (y ∷ ys) h = elim (Bool-cases (x == y)) [
  | inl t ↦
      let head : x ≡ y = ground (arith, t) in
      rw (head, list_eq-true xs ys (ground (arith, t, h))) refl
  | inr f ↦ absurd (ground (arith, f, h))
]

make_bytes :
    (hash : List ℕ → ℕ) (entries : List (List ℕ)) (n : TrackNamespace)
    → make hash entries ≡ ok n
    → n.bytes ≡ flat entries
unfolding make
make_bytes hash entries n h = elim (Bool-cases (ltb 32 (length entries) || length entries == 0)) [
  | inl t ↦ absurd (ground (arith, t, h))
  | inr f ↦ ground (arith, f, h)
]

-- Two namespaces that were made of entries compare as equal just when their entries make the same
-- bytes one behind another, wherever one entry ends and the next begins.
pub equal-flat :
    (hash : List ℕ → ℕ) (entries others : List (List ℕ)) (n m : TrackNamespace)
    → make hash entries ≡ ok n
    → make hash others ≡ ok m
    → (equal n m ≡ true) ↔ (flat entries ≡ flat others)
unfolding equal
equal-flat hash entries others n m hn hm = (
  λ t.
      list_eq-true (flat entries) (flat others)
        (rw (sym (make_bytes hash entries n hn), sym (make_bytes hash others m hm)) t),
  λ same.
      rw (make_bytes hash entries n hn, make_bytes hash others m hm, same)
        (list_eq_refl (flat others)),
)
