-- ===== src/Cache/Expiry.antt =====
-- How long a cache keeps what is inserted.
use native.Mathlib.Nat.{mod-eq_of_lt, mod-eq-sub-mod, mod-lt}
use libquicr.Prelude.{
  ℕ, zero, suc, ◌+◌, ◌-◌, ◌%◌, ◌^◌, ◌≤◌, ◌<◌, ◌≡◌, ◌≢◌, refl, sym, ◌∙◌, ap, false, ◌&&◌, not, List,
  [], ◌∷◌, ◌++◌, arith, leb, ltb, ◌==◌, get_or, set, if◌then◌else◌, Bool-cases, inl, inr, sub64,
  u64, u32, ==_iff, none,
}
use libquicr.TimeQueue.Buckets.{get_or-set_ne, get_or-set_self}
use libquicr.Cache.Map.{lookup}
use libquicr.Cache.Keys.{has_key, has_key-append, IsSorted, erase_all-IsSorted, lookup-erase_all}
use libquicr.Cache.{Cache, clear, expire, expire_from, delta_ticks, advance, store}
use libquicr.Cache.Invariant.{in_bucket, IsValid}

-- Sums below twice the number of buckets, by the bucket they stand for.
mod_wrap : (b i t : ℕ) → b < t → i < t → (b + i) % t ≡ (if ltb (b + i) t then b + i else b + i - t)
mod_wrap b i t hb hi = elim (Bool-cases (ltb (b + i) t)) [
  | inl l ↦ rw l (mod-eq_of_lt (ground arith))
  | inr g ↦ rw g (mod-eq-sub-mod (ground arith) ∙ mod-eq_of_lt (ground arith))
]

mod_inj : (b i j t : ℕ) → b < t → i < t → j < t → (b + i) % t ≡ (b + j) % t → i ≡ j
mod_inj b i j t hb hi hj e = ground (arith, mod_wrap b i t hb hi, mod_wrap b j t hb hj, e)

in_bucket-set_nil :
    (k i j : ℕ) (b : List (List ℕ)) → in_bucket k j (set b i []) ≡ (not (i == j) && in_bucket k j b)
in_bucket-set_nil k i j [] = ground arith
in_bucket-set_nil k zero zero (x ∷ b) = refl
in_bucket-set_nil k zero (suc j) (x ∷ b) = ground arith
in_bucket-set_nil k (suc i) zero (x ∷ b) = ground arith
in_bucket-set_nil k (suc i) (suc j) (x ∷ b) = in_bucket-set_nil k i j b ∙ ground arith

module _ {A : Type 0} where
  -- The bucket of the loop's turn `i`.
  abbrev turn : Cache A → ℕ → ℕ
  turn c i = u64 (c.bucket_index + i) % c.total_buckets

  unfoldable pub IsOnlyIn : ℕ → ℕ → Cache A → Type 0
  IsOnlyIn k b c = (j : ℕ) → in_bucket k j c.buckets ≡ (j == b)

  lookup-expire :
      (k i : ℕ) (c : Cache A)
      → IsSorted c.cache
      → lookup k (expire i c).cache ≡ (if in_bucket k i c.buckets then none else lookup k c.cache)
  lookup-expire k i c s = lookup-erase_all k (get_or c.buckets i []) c.cache s

  stays_none :
      (k n i : ℕ) (c : Cache A)
      → IsSorted c.cache
      → lookup k c.cache ≡ none
      → lookup k (expire_from n i c).cache ≡ none
  stays_none k zero i c s h = h
  stays_none k (suc n) i c s h =
      stays_none k n (suc i) (expire (turn c i) c)
        (erase_all-IsSorted (get_or c.buckets (turn c i) []) c.cache s)
        (ground (arith, lookup-expire k (turn c i) c s, h))

  expire-IsOnlyIn : (k b i : ℕ) (c : Cache A) → i ≢ b → IsOnlyIn k b c → IsOnlyIn k b (expire i c)
  unfolding IsOnlyIn
  expire-IsOnlyIn k b i c ne only j = ground (arith, in_bucket-set_nil k i j c.buckets, only j, ne)

  lookup-expire_from_out :
      (k b n i : ℕ) (c : Cache A)
      → IsSorted c.cache
      → IsOnlyIn k b c
      → ((j : ℕ) → i ≤ j → j < i + n → turn c j ≢ b)
      → lookup k (expire_from n i c).cache ≡ lookup k c.cache
  unfolding IsOnlyIn
  lookup-expire_from_out k b zero i c s only out = refl
  lookup-expire_from_out k b (suc n) i c s only out =
      let ne = out i (omega arith) (omega arith) in
      lookup-expire_from_out k b n (suc i) (expire (turn c i) c)
        (erase_all-IsSorted (get_or c.buckets (turn c i) []) c.cache s)
        (expire-IsOnlyIn k b (turn c i) c ne only)
        (λ j l u. out j (omega (arith, l)) (omega (arith, u)))
      ∙ ground (arith, lookup-expire k (turn c i) c s, only (turn c i), ne)

  lookup-expire_from_in :
      (k b n i j : ℕ) (c : Cache A)
      → IsSorted c.cache
      → IsOnlyIn k b c
      → i ≤ j
      → j < i + n
      → turn c j ≡ b
      → lookup k (expire_from n i c).cache ≡ none
  unfolding IsOnlyIn
  lookup-expire_from_in k b zero i j c s only l u hit = absurd (omega (arith, l, u))
  lookup-expire_from_in k b (suc n) i j c s only l u hit = elim (Bool-cases (turn c i == b)) [
    | inl t ↦
        stays_none k n (suc i) (expire (turn c i) c)
          (erase_all-IsSorted (get_or c.buckets (turn c i) []) c.cache s)
          (ground (arith, lookup-expire k (turn c i) c s, only (turn c i), t))
    | inr f ↦
        let ne : turn c i ≢ b = λ e. ground (arith, e, f) in
        let later : i ≢ j = λ e. ne (ap (λ i. turn c i) e ∙ hit) in
        lookup-expire_from_in k b n (suc i) j (expire (turn c i) c)
          (erase_all-IsSorted (get_or c.buckets (turn c i) []) c.cache s)
          (expire-IsOnlyIn k b (turn c i) c ne only) (ground (arith, l, later)) (omega (arith, u))
          hit
  ]

  abbrev pub IsSameClock : Cache A → Cache A → Type 0
  IsSameClock c d =
      (c.current_ticks ≡ d.current_ticks)
      × (c.interval ≡ d.interval)
      × (c.total_buckets ≡ d.total_buckets)
      × (c.duration ≡ d.duration)

  expire_from-IsSameClock : (n i : ℕ) (c : Cache A) → IsSameClock (expire_from n i c) c
  expire_from-IsSameClock zero i c = (refl, refl, refl, refl)
  expire_from-IsSameClock (suc n) i c = expire_from-IsSameClock n (suc i) (expire (turn c i) c)

  pub advance-IsSameClock :
      (now : ℕ) (c : Cache A) → IsSameClock (advance now c) (record c { current_ticks = now })
  unfolding advance clear
  advance-IsSameClock now c = elim (Bool-cases (delta_ticks now c == 0)) [
    | inl t ↦ rw t (refl, refl, refl, refl)
    | inr f ↦ rw f (elim (Bool-cases (leb c.total_buckets (delta_ticks now c))) [
      | inl t ↦ rw t (refl, refl, refl, refl)
      | inr g ↦ rw g (expire_from-IsSameClock (delta_ticks now c) 0 _)
    ])
  ]

  turn_small :
      (i : ℕ) (c : Cache A)
      → IsValid c
      → c.total_buckets < 2 ^ 32
      → i < c.total_buckets
      → turn c i ≡ (c.bucket_index + i) % c.total_buckets
  turn_small i c v small h =
      ap (λ x. x % c.total_buckets) (mod-eq_of_lt (omega (arith, small, h, v.index)))

  -- What a later look at the clock does to a key that is in one bucket, `w` places ahead.
  pub lookup-advance :
      (k w now : ℕ) (c : Cache A)
      → IsValid c
      → c.total_buckets < 2 ^ 32
      → w < c.total_buckets
      → IsOnlyIn k ((c.bucket_index + w) % c.total_buckets) c
      → lookup k (advance now c).cache
        ≡ (if ltb w (delta_ticks now c) then none else lookup k c.cache)
  unfolding advance clear IsOnlyIn
  lookup-advance k w now c v small near only =
      let n = delta_ticks now c in
      let b = (c.bucket_index + w) % c.total_buckets in
      elim (Bool-cases (n == 0)) [
        | inl t ↦ rw t (ground (arith, t))
        | inr f ↦ rw f (elim (Bool-cases (leb c.total_buckets n)) [
          | inl t ↦ rw t (ground (arith, t))
          | inr g ↦ rw g (elim (Bool-cases (ltb w n)) [
            | inl l ↦ rw l (
                lookup-expire_from_in k b n 0 w (record c { current_ticks = now }) v.sorted only
                  (omega arith) (ground arith) (turn_small w c v small near))
            | inr l ↦ rw l (
                lookup-expire_from_out k b n 0 (record c { current_ticks = now }) v.sorted only
                  (λ j _ u e.
                    let same =
                      mod_inj c.bucket_index j w c.total_buckets v.index (ground (arith, u)) near
                        (sym (turn_small j c v small (ground (arith, u))) ∙ e) in
                    absurd (ground (arith, same, u))))
          ])
        ])
      ]

  pub store-IsOnlyIn :
      (key : ℕ) (value : A) (w : ℕ) (c : Cache A)
      → IsValid c
      → c.total_buckets < 2 ^ 32
      → w < c.total_buckets
      → ((j : ℕ) → in_bucket key j c.buckets ≡ false)
      → IsOnlyIn key ((c.bucket_index + w) % c.total_buckets) (store key value (suc w) c)
  unfolding store IsOnlyIn
  store-IsOnlyIn key value w c v small near new j =
      let b = (c.bucket_index + w) % c.total_buckets in
      let below : b < c.total_buckets = mod-lt (c.bucket_index + w) v.positive in
      let future : u32 (sub64 (u64 (c.bucket_index + suc w)) 1 % c.total_buckets) ≡ b =
        ap (λ x. u32 (x % c.total_buckets)) (omega (arith, small, near, v.index))
        ∙ mod-eq_of_lt (omega (arith, below, small)) in
      let bucket = get_or c.buckets b [] ++ (key ∷ []) in
      rw future (elim (Bool-cases (j == b)) [
        | inl t ↦
            let e : j ≡ b = (==_iff j b).0 t in
            ap (λ j. in_bucket key j (set c.buckets b bucket)) e
            ∙ ap (λ l. has_key key l)
                (get_or-set_self c.buckets b bucket (omega (arith, below, v.as_made)))
            ∙ has_key-append key (get_or c.buckets b []) (key ∷ [])
            ∙ ground (arith, t)
        | inr f ↦
            ap (λ l. has_key key l) (get_or-set_ne c.buckets b j bucket (λ e. ground (arith, e, f)))
            ∙ ground (arith, new j, f)
      ])
