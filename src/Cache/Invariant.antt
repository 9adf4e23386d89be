-- ===== src/Cache/Invariant.antt =====
-- The invariant of a cache under each of its operations.
use native.Mathlib.Nat.{mod-lt, mod-le}
use mathlib.Core.Path.{subst}
use libquicr.Prelude.{
  ℕ, zero, suc, ◌+◌, ◌/◌, ◌%◌, ◌<◌, ◌≡◌, refl, sym, ◌∙◌, ap, Bool, true, false, List, [], ◌∷◌, ◌++◌,
  arith, length, leb, ◌==◌, get_or, Bool-cases, inl, inr, sub64, u64, u32, ==_iff, ◌^◌,
  length-replicate,
}
use libquicr.TimeQueue.Buckets.{get_or-set_ne, get_or-set_self, length-set}
use libquicr.Cache.Map.{lookup, is_some}
use libquicr.Cache.Keys.{
  has_key, has_key-append, IsSorted, erase_all-IsSorted, assign-IsSorted, lookup-assign,
  lookup-erase_all,
}
use libquicr.Cache.{Cache, clear, expire, expire_from, delta_ticks, advance, store}

abbrev pub in_bucket : ℕ → ℕ → List (List ℕ) → Bool
in_bucket k j buckets = has_key k (get_or buckets j [])

module _ {A : Type 0} where
  -- The map is sorted, the buckets are as many as the constructor made, and every key of the map is
  -- in a bucket, so that its time will come.
  pub record IsValid (c : Cache A) : Type 0 where
    pub positive : 0 < c.total_buckets
    pub as_made : length c.buckets ≡ c.total_buckets
    pub index : c.bucket_index < c.total_buckets
    pub nonzero : 0 < c.interval
    pub whole : c.total_buckets ≡ c.duration / c.interval
    pub sorted : IsSorted c.cache
    pub held :
        (k : ℕ) → is_some (lookup k c.cache) ≡ true → (j : ℕ) × (in_bucket k j c.buckets ≡ true)

  pub clear-IsValid : (c : Cache A) → IsValid c → IsValid (clear c)
  unfolding clear
  clear-IsValid c v = record {
    positive = v.positive;
    as_made = length-replicate (length c.buckets) [] ∙ v.as_made;
    index = v.positive;
    nonzero = v.nonzero;
    whole = v.whole;
    sorted = tt;
    held = λ k h. absurd (ground (arith, h));
  }

  pub expire-IsValid : (i : ℕ) (c : Cache A) → IsValid c → IsValid (expire i c)
  expire-IsValid i c v = record {
    positive = v.positive;
    as_made = length-set c.buckets i [] ∙ v.as_made;
    index = v.index;
    nonzero = v.nonzero;
    whole = v.whole;
    sorted = erase_all-IsSorted (get_or c.buckets i []) c.cache v.sorted;
    held = λ k h.
        let gone = lookup-erase_all k (get_or c.buckets i []) c.cache v.sorted in
        let out : in_bucket k i c.buckets ≡ false = ground (arith, gone, h) in
        let (j, at_j) = v.held k (ground (arith, gone, h)) in
        (
          j,
          ap (λ b. has_key k b)
                (get_or-set_ne c.buckets i j []
                  (λ e. ground (arith, ap (λ i. in_bucket k i c.buckets) e)))
              ∙ at_j,
        );
  }

  pub expire_from-IsValid : (n i : ℕ) (c : Cache A) → IsValid c → IsValid (expire_from n i c)
  expire_from-IsValid zero i c v = v
  expire_from-IsValid (suc n) i c v = expire_from-IsValid n (suc i) _ (expire-IsValid _ c v)

  pub total_buckets-expire_from :
      (n i : ℕ) (c : Cache A) → (expire_from n i c).total_buckets ≡ c.total_buckets
  total_buckets-expire_from zero i c = refl
  total_buckets-expire_from (suc n) i c = total_buckets-expire_from n (suc i) _

  pub IsValid-at :
      (t b : ℕ) (c : Cache A)
      → b < c.total_buckets
      → IsValid c
      → IsValid (record c { current_ticks = t; bucket_index = b })
  IsValid-at t b c h v = record {
    positive = v.positive;
    as_made = v.as_made;
    index = h;
    nonzero = v.nonzero;
    whole = v.whole;
    sorted = v.sorted;
    held = v.held;
  }

  with_bucket_index-IsValid :
      (b : ℕ) (c : Cache A)
      → b < c.total_buckets
      → IsValid c
      → IsValid (record c { bucket_index = b })
  with_bucket_index-IsValid b c h v = IsValid-at c.current_ticks b c h v

  pub advance-IsValid : (now : ℕ) (c : Cache A) → IsValid c → IsValid (advance now c)
  unfolding advance
  advance-IsValid now c v =
      let v' = IsValid-at now c.bucket_index c v.index v in
      let next = u64 (c.bucket_index + delta_ticks now c) % c.total_buckets in
      let below : u32 next < c.total_buckets = omega (
        arith,
        mod-le next (2 ^ 32),
        mod-lt (u64 (c.bucket_index + delta_ticks now c)) v.positive,
      ) in
      elim (Bool-cases (delta_ticks now c == 0)) [
        | inl t ↦ rw t v'
        | inr f ↦ rw f (elim (Bool-cases (leb c.total_buckets (delta_ticks now c))) [
          | inl t ↦ rw t (clear-IsValid _ v')
          | inr g ↦ rw g (
              with_bucket_index-IsValid (u32 next) _
                (subst (λ t. u32 next < t) (sym (total_buckets-expire_from (delta_ticks now c) 0 _))
                  below)
                (expire_from-IsValid (delta_ticks now c) 0 _ v'))
        ])
      ]

  pub store-IsValid :
      (key : ℕ) (value : A) (ttl : ℕ) (c : Cache A) → IsValid c → IsValid (store key value ttl c)
  unfolding store
  store-IsValid key value ttl c v =
      let at = sub64 (u64 (c.bucket_index + ttl)) 1 % c.total_buckets in
      let future = u32 at in
      let bucket = get_or c.buckets future [] in
      let below : future < length c.buckets = omega (
        arith,
        mod-le at (2 ^ 32),
        mod-lt (sub64 (u64 (c.bucket_index + ttl)) 1) v.positive,
        v.as_made,
      ) in
      let there = get_or-set_self c.buckets future (bucket ++ (key ∷ [])) below in
      record {
        positive = v.positive;
        as_made = length-set c.buckets future _ ∙ v.as_made;
        index = v.index;
        nonzero = v.nonzero;
        whole = v.whole;
        sorted = assign-IsSorted key value c.cache v.sorted;
        held = λ k h. elim (Bool-cases (k == key)) [
          | inl t ↦ (
            future,
            ap (λ b. has_key k b) there ∙ has_key-append k bucket (key ∷ []) ∙ ground (arith, t),
          )
          | inr f ↦
              let (j, at_j) = v.held k (ground (arith, lookup-assign k key value c.cache, h, f)) in
              elim (Bool-cases (future == j)) [
                | inl t ↦ (
                  future,
                  ap (λ b. has_key k b) there
                      ∙ has_key-append k bucket (key ∷ [])
                      ∙ ground
                          (arith, at_j, ap (λ i. in_bucket k i c.buckets) ((==_iff future j).0 t)),
                )
                | inr g ↦ (
                  j,
                  ap (λ b. has_key k b)
                        (get_or-set_ne c.buckets future j _ (λ e. ground (arith, e, g)))
                      ∙ at_j,
                )
              ]
        ];
      }
