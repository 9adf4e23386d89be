-- ===== src/TrackName/Prefix.antt =====
-- Prefixes of namespaces, which are told by the hashes of the entries.
use libquicr.Prelude.{
  ℕ, zero, suc, ◌≤◌, ◌≡◌, ◌↔◌, refl, sym, ◌∙◌, ap, true, false, ◌||◌, List, [], ◌∷◌, ◌++◌, map, ok,
  ◌==◌, ltb, length, length-append, arith, Bool-cases, inl, inr,
}
use libquicr.TrackName.{TrackNamespace, same_hashes, is_prefix_of, has_same_prefix, make}

-- The entries of one namespace begin those of another.
abbrev pub IsPrefix : List (List ℕ) → List (List ℕ) → Type 0
IsPrefix es fs = (rest : List (List ℕ)) × (es ++ rest ≡ fs)

module _ (hash : List ℕ → ℕ) where
  -- Entries at the same place with the same hash are the same.
  abbrev pub NoCollision : List (List ℕ) → List (List ℕ) → Type 0
  NoCollision (a ∷ es) (b ∷ fs) = (hash a ≡ hash b → a ≡ b) × NoCollision es fs
  NoCollision _ _ = Unit

  same_hashes-IsPrefix :
      (es fs : List (List ℕ))
      → NoCollision es fs
      → length es ≤ length fs
      → same_hashes (length es) (map hash es) (map hash fs) ≡ true
      → IsPrefix es fs
  same_hashes-IsPrefix [] fs h l t = (fs, refl)
  same_hashes-IsPrefix (a ∷ es) [] h l t = absurd (omega (arith, l))
  same_hashes-IsPrefix (a ∷ es) (b ∷ fs) (same, h) l t = elim (Bool-cases (hash a == hash b)) [
    | inl e ↦
        let (rest, behind) =
          same_hashes-IsPrefix es fs h (omega (arith, l)) (ground (arith, e, t)) in
        (rest, rw (same (ground (arith, e)), behind) refl)
    | inr n ↦ absurd (ground (arith, n, t))
  ]

  same_hashes-append :
      (es rest : List (List ℕ))
      → same_hashes (length es) (map hash es) (map hash (es ++ rest)) ≡ true
  same_hashes-append [] [] = refl
  same_hashes-append [] (f ∷ fs) = refl
  same_hashes-append (a ∷ es) rest = ground (arith, same_hashes-append es rest)

  length-hashes : (es : List (List ℕ)) → length (map hash es) ≡ length es
  length-hashes [] = refl
  length-hashes (e ∷ es) = rw (length-hashes es) refl

  make_hashes :
      (es : List (List ℕ)) (n : TrackNamespace) → make hash es ≡ ok n → n.hashes ≡ map hash es
  unfolding make
  make_hashes es n h = elim (Bool-cases (ltb 32 (length es) || length es == 0)) [
    | inl t ↦ absurd (ground (arith, t, h))
    | inr f ↦ ground (arith, f, h)
  ]

  is_prefix-append :
      (es rest : List (List ℕ)) (n m : TrackNamespace)
      → n.hashes ≡ map hash es
      → m.hashes ≡ map hash (es ++ rest)
      → is_prefix_of n m ≡ true
  unfolding is_prefix_of
  is_prefix-append es rest n m hn hm =
      rw (hn, hm, length-hashes es, length-hashes (es ++ rest))
        (let short : ltb (length (es ++ rest)) (length es) ≡ false =
            ground (arith, length-append es rest) in
          rw (short) (same_hashes-append es rest))

  is_prefix_true :
      (es fs : List (List ℕ)) (n m : TrackNamespace)
      → n.hashes ≡ map hash es
      → m.hashes ≡ map hash fs
      → is_prefix_of n m ≡ true
      → (length es ≤ length fs) × (same_hashes (length es) (map hash es) (map hash fs) ≡ true)
  unfolding is_prefix_of
  is_prefix_true es fs n m hn hm t = ground (arith, hn, hm, t, length-hashes es, length-hashes fs)

  -- `IsPrefixOf` tells, for namespaces that were made of entries, whether the entries of one begin those
  -- of the other, if no two different entries at the same place have the same hash.
  pub is_prefix_of-IsPrefix :
      (es fs : List (List ℕ)) (n m : TrackNamespace)
      → make hash es ≡ ok n
      → make hash fs ≡ ok m
      → NoCollision es fs
      → (is_prefix_of n m ≡ true) ↔ IsPrefix es fs
  is_prefix_of-IsPrefix es fs n m he hf none = (
    λ t.
        let (few, same) = is_prefix_true es fs n m (make_hashes es n he) (make_hashes fs m hf) t in
        same_hashes-IsPrefix es fs none few same,
    λ (rest, all).
        is_prefix-append es rest n m (make_hashes es n he)
          (make_hashes fs m hf ∙ ap (map hash) (sym all)),
  )

same_hashes_swap : (n : ℕ) (xs ys : List ℕ) → same_hashes n xs ys ≡ same_hashes n ys xs
same_hashes_swap zero [] [] = refl
same_hashes_swap zero [] (y ∷ ys) = refl
same_hashes_swap zero (x ∷ xs) [] = refl
same_hashes_swap zero (x ∷ xs) (y ∷ ys) = refl
same_hashes_swap (suc n) [] [] = refl
same_hashes_swap (suc n) [] (y ∷ ys) = refl
same_hashes_swap (suc n) (x ∷ xs) [] = refl
same_hashes_swap (suc n) (x ∷ xs) (y ∷ ys) = ground (arith, same_hashes_swap n xs ys)

-- Two namespaces have the same prefix just when one of them is a prefix of the other.
pub has_same_prefix-is_prefix_of :
    (n m : TrackNamespace) → has_same_prefix n m ≡ (is_prefix_of n m || is_prefix_of m n)
unfolding has_same_prefix is_prefix_of
has_same_prefix-is_prefix_of n m = ground (
  arith,
  same_hashes_swap (length n.hashes) n.hashes m.hashes,
  same_hashes_swap (length m.hashes) n.hashes m.hashes,
)
