-- ===== src/CtrlTypes/Namespace/Reread.antt =====
-- What `operator>>` accepts as a track namespace can be written again.
use libquicr.Prelude.{
  ℕ, zero, suc, ◌^◌, ◌≤◌, ◌<◌, ◌≡◌, refl, sym, ap, ◌∙◌, Bool, true, Bool-cases, inl, inr, List, [],
  ◌∷◌, ◌++◌, ok, undefined, ◌>>=◌, bind_ok, ltb, leb, if◌then◌else◌, length, take, drop,
  length-take, All, arith,
}
use libquicr.UintVar.{get, size, from_bytes}
use libquicr.UintVar.Bounds.{IsByte, get-lt_of_from_bytes}
use libquicr.TrackName.{TrackNamespace, make}
use libquicr.CtrlTypes.{read_u64, read_bytes}
use libquicr.CtrlTypes.Namespace.{
  max_size, read_entries, write_namespace, read_namespace, allocate, read_allocated,
}
use libquicr.CtrlTypes.Namespace.RoundTrip.{IsShort, read_namespace-write_namespace}

drop-All : (n : ℕ) (xs : List ℕ) → All IsByte xs → All IsByte (drop n xs)
drop-All zero xs h = h
drop-All (suc n) [] h = h
drop-All (suc n) (x ∷ xs) h = drop-All n xs h.1

-- The value of a varint and the bytes behind it.
read_u64_ok :
    (buffer : List ℕ) (r : ℕ × List ℕ)
    → All IsByte buffer
    → read_u64 buffer ≡ ok r
    → (r.0 < 2 ^ 62) × All IsByte r.1
unfolding read_u64
read_u64_ok buffer r bs h =
    let (u, read, same) = bind_ok (from_bytes buffer) (λ u. ok (get u, drop (size u) buffer)) r h in
    let value : get u ≡ r.0 = cc in
    let behind : drop (size u) buffer ≡ r.1 = cc in
    (
      rw (sym value) (get-lt_of_from_bytes buffer bs read),
      rw (sym behind) (drop-All (size u) buffer bs),
    )

take_if_ok :
    (n : ℕ) (bytes : List ℕ) (r : List ℕ × List ℕ)
    → n < 2 ^ 62
    → All IsByte bytes
    → (if leb n (length bytes) then ok (take n bytes, drop n bytes) else undefined) ≡ ok r
    → IsShort r.0 × All IsByte r.1
take_if_ok n bytes r small bs h = elim (Bool-cases (leb n (length bytes))) [
  | inl t ↦
      let taken : ok (take n bytes, drop n bytes) ≡ ok r = ground (arith, t, h) in
      let value : take n bytes ≡ r.0 = cc in
      let left : drop n bytes ≡ r.1 = cc in
      let fits : n ≤ length bytes = ground (arith, t) in
      (rw (sym value, length-take n bytes fits) small, rw (sym left) (drop-All n bytes bs))
  | inr f ↦ absurd (ground (arith, f, h))
]

read_bytes_ok :
    (buffer : List ℕ) (r : List ℕ × List ℕ)
    → All IsByte buffer
    → read_bytes buffer ≡ ok r
    → IsShort r.0 × All IsByte r.1
unfolding read_bytes
read_bytes_ok buffer r bs h =
    let (n, read, same) =
      bind_ok (read_u64 buffer)
        (λ n. if leb n.0 (length n.1) then ok (take n.0 n.1, drop n.0 n.1) else undefined) r h in
    let (small, behind) = read_u64_ok buffer n bs read in take_if_ok n.0 n.1 r small behind same

read_entries_ok :
    (size : ℕ) (buffer : List ℕ) (r : List (List ℕ) × List ℕ)
    → All IsByte buffer
    → read_entries size buffer ≡ ok r
    → (length r.0 ≡ size) × All IsShort r.0
read_entries_ok zero buffer r bs h = let none : [] ≡ r.0 = cc in rw (sym none) (refl, tt)
read_entries_ok (suc size) buffer r bs h =
    let (e, read, more) =
      bind_ok (read_bytes buffer) (λ e. do es ← read_entries size e.1; ok (e.0 ∷ es.0, es.1)) r h in
    let (es, others, same) = bind_ok (read_entries size e.1) (λ es. ok (e.0 ∷ es.0, es.1)) r more in
    let (short, behind) = read_bytes_ok buffer e bs read in
    let (count, all_short) = read_entries_ok size e.1 es behind others in
    let entries : e.0 ∷ es.0 ≡ r.0 = cc in rw (sym entries) (ap suc count, (short, all_short))

module _ (hash : List ℕ → ℕ) (can_allocate : ℕ → Bool) where
  allocate_ok :
      (n : ℕ × List ℕ) (r : TrackNamespace × List ℕ)
      → allocate hash can_allocate n ≡ ok r
      → (can_allocate n.0 ≡ true) × (read_allocated hash can_allocate n ≡ ok r)
  allocate_ok n r h = elim (Bool-cases (ltb max_size n.0)) [
    | inl t ↦ absurd (ground (arith, t, h))
    | inr f ↦ elim (Bool-cases (can_allocate n.0)) [
      | inl enough ↦ (enough, ground (arith, f, enough, h))
      | inr short ↦ absurd (ground (arith, f, short, h))
    ]
  ]

  -- What is read was made of entries that can be written and allocated.
  read_namespace_ok :
      (buffer : List ℕ) (r : TrackNamespace × List ℕ)
      → All IsByte buffer
      → read_namespace hash can_allocate buffer ≡ ok r
      → (entries : List (List ℕ)) × (make hash entries ≡ ok r.0)
        × All IsShort entries
        × (can_allocate (length entries) ≡ true)
  unfolding read_namespace
  read_namespace_ok buffer r bs h =
      let (n, read, more) = bind_ok (read_u64 buffer) (allocate hash can_allocate) r h in
      let (enough, rest) = allocate_ok n r more in
      let (es, others, last) =
        bind_ok (read_entries n.0 n.1) (λ es. do ns ← make hash es.0; ok (ns, es.1)) r rest in
      let (ns, made, same) = bind_ok (make hash es.0) (λ ns. ok (ns, es.1)) r last in
      let (small, behind) = read_u64_ok buffer n bs read in
      let (count, all_short) = read_entries_ok n.0 n.1 es behind others in
      let value : ns ≡ r.0 = cc in
      (es.0, made ∙ ap ok value, all_short, ap can_allocate count ∙ enough)

  -- A namespace that is read from bytes, whatever they are, is written again without an exception,
  -- and what was written, with any bytes behind it, is read as the same namespace and leaves these.
  pub read_namespace_again :
      (buffer more : List ℕ) (r : TrackNamespace × List ℕ)
      → All IsByte buffer
      → read_namespace hash can_allocate buffer ≡ ok r
      → (write_namespace r.0 [] >>= λ b. read_namespace hash can_allocate (b ++ more))
        ≡ ok (r.0, more)
  read_namespace_again buffer more r bs h =
      let (entries, made, short, enough) = read_namespace_ok buffer r bs h in
      read_namespace-write_namespace hash can_allocate entries r.0 more made short enough
