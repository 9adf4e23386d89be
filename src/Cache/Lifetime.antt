-- ===== src/Cache/Lifetime.antt =====
-- What `Get` finds after an `Insert`, at once and later.
use native.Mathlib.Nat.{le-div_iff_mul-le, div-eq_of_lt, zero-div}
use libquicr.Prelude.{
  ℕ, suc, ◌+◌, ◌-◌, ◌*◌, ◌/◌, ◌^◌, ◌≤◌, ◌<◌, ◌≡◌, refl, sym, ◌∙◌, ap, true, false, List, [], ◌∷◌,
  arith, ltb, ◌==◌, if◌then◌else◌, inl, inr, ok, sub64, some, none, ◌⊎◌, div-le-div,
}
use libquicr.Cache.Map.{lookup}
use libquicr.Cache.Keys.{lookup-assign}
use libquicr.Cache.{Cache, delta_ticks, advance, store, insert, contains, get}
use libquicr.Cache.Invariant.{in_bucket, IsValid, advance-IsValid, store-IsValid}
use libquicr.Cache.Expiry.{advance-IsSameClock, lookup-advance, store-IsOnlyIn}

-- Each time is less than `interval` after the one before.
abbrev pub Frequent : ℕ → ℕ → List ℕ → Type 0
Frequent interval last [] = Unit
Frequent interval last (t ∷ ts) =
    (last ≤ t) × (t < last + interval) × (t < 2 ^ 64) × Frequent interval t ts

module _ {A : Type 0} where
  get_lem : (k now : ℕ) (c : Cache A) → (get k now c).1 ≡ lookup k (advance now c).cache
  unfolding get contains
  get_lem k now c = ground (arith)

  insert_ok :
      (key : ℕ) (value : A) (ttl now : ℕ) (c c' : Cache A)
      → 0 < ttl
      → insert key value ttl now c ≡ ok c'
      → (ttl ≤ c.duration) × (store key value (ttl / c.interval) (advance now c) ≡ c')
  unfolding insert
  insert_ok key value ttl now c c' h e = ground (arith, e, h)

  insert_ok_any :
      (key : ℕ) (value : A) (ttl now : ℕ) (c c' : Cache A)
      → insert key value ttl now c ≡ ok c'
      → store key value ((if ttl == 0 then c.duration else ttl) / c.interval) (advance now c) ≡ c'
  unfolding insert
  insert_ok_any key value ttl now c c' e = ground (arith, e)

  current_ticks-store :
      (key : ℕ) (value : A) (n : ℕ) (c : Cache A)
      → (store key value n c).current_ticks ≡ c.current_ticks
  unfolding store
  current_ticks-store key value n c = refl

  lookup-store_any :
      (key k : ℕ) (value : A) (n : ℕ) (c : Cache A)
      → lookup k (store key value n c).cache ≡ (if k == key then some value else lookup k c.cache)
  unfolding store
  lookup-store_any key k value n c = lookup-assign k key value c.cache

  delta_ticks_zero :
      (t : ℕ) (c : Cache A)
      → c.current_ticks ≤ t
      → t < 2 ^ 64
      → (t < c.current_ticks + c.interval) ⊎ (t ≡ c.current_ticks)
      → (delta_ticks t c == 0) ≡ true
  unfolding delta_ticks
  delta_ticks_zero t c le small near =
      let e : sub64 t c.current_ticks ≡ t - c.current_ticks = omega (arith, le, small) in
      let z : (t - c.current_ticks) / c.interval ≡ 0 = elim near [
        | inl lt ↦ div-eq_of_lt (omega (arith, lt, le))
        | inr same ↦ ap (λ n. n / c.interval) (omega (arith, same)) ∙ zero-div c.interval
      ] in
      rw e (ground (arith, z))

  lookup-advance_again :
      (k now : ℕ) (c : Cache A)
      → now < 2 ^ 64
      → c.current_ticks ≡ now
      → lookup k (advance now c).cache ≡ lookup k c.cache
  unfolding advance
  lookup-advance_again k now c small at =
      let z = delta_ticks_zero now c (omega (arith, at)) small (inr (sym at)) in rw z refl

  delta_ticks-store :
      (key : ℕ) (value : A) (k now x : ℕ) (c : Cache A)
      → c.current_ticks ≡ now
      → 0 < now
      → now + x < 2 ^ 64
      → delta_ticks (now + x) (store key value k c) ≡ x / c.interval
  unfolding delta_ticks store
  delta_ticks-store key value k now x c at h small =
      let e : sub64 (now + x) c.current_ticks ≡ x = omega (arith, at, small) in
      let running : (c.current_ticks == 0) ≡ false = ground (arith, at, h) in rw (running, e) refl

  lookup-store :
      (key : ℕ) (value : A) (k : ℕ) (c : Cache A)
      → lookup key (store key value k c).cache ≡ some value
  unfolding store
  lookup-store key value k c = ground (arith, lookup-assign key key value c.cache)

  get-store :
      (key : ℕ) (value : A) (w now x : ℕ) (c : Cache A)
      → IsValid c
      → c.total_buckets < 2 ^ 32
      → w < c.total_buckets
      → c.current_ticks ≡ now
      → 0 < now
      → now + x < 2 ^ 64
      → ((j : ℕ) → in_bucket key j c.buckets ≡ false)
      → (get key (now + x) (store key value (suc w) c)).1
        ≡ (if ltb (x / c.interval) (suc w) then some value else none)
  unfolding store
  get-store key value w now x c v small near at h fits new =
      let s = store key value (suc w) c in
      get_lem key (now + x) s
      ∙ lookup-advance key w (now + x) s (store-IsValid key value (suc w) c v) small near
          (store-IsOnlyIn key value w c v small near new)
      ∙ ground (
        arith,
        delta_ticks-store key value (suc w) now x c at h fits,
        lookup-store key value (suc w) c,
      )

  -- A key that no bucket holds, inserted at a time other than 0 with a time to live of an interval or
  -- more, is found at any later time until as many whole intervals have passed as its time to live
  -- has, and no longer. The cache has fewer than 2^32 buckets and is read once, `x` later.
  pub get-insert_later :
      (key : ℕ) (value : A) (ttl now x : ℕ) (c c' : Cache A)
      → IsValid c
      → c.total_buckets < 2 ^ 32
      → 0 < now
      → now + x < 2 ^ 64
      → c.interval ≤ ttl
      → ((j : ℕ) → in_bucket key j (advance now c).buckets ≡ false)
      → insert key value ttl now c ≡ ok c'
      → (get key (now + x) c').1
        ≡ (if ltb (x / c.interval) (ttl / c.interval) then some value else none)
  get-insert_later key value ttl now x c c' v small h fits long new e =
      let (at, same_interval, same_total, same_duration) = advance-IsSameClock now c in
      let (within, made) = insert_ok key value ttl now c c' (omega (arith, v.nonzero, long)) e in
      let whole : suc (ttl / c.interval - 1) ≡ ttl / c.interval = omega (
        arith,
        (le-div_iff_mul-le v.nonzero).1 (let l : 1 * c.interval ≤ ttl = omega (arith, long) in l),
      ) in
      let near : ttl / c.interval - 1 < (advance now c).total_buckets = omega (
        arith,
        whole,
        div-le-div ttl c.duration c.interval v.nonzero within,
        v.whole,
        same_total,
      ) in
      ap (λ c. (get key (now + x) c).1) (sym made)
      ∙ ap (λ k. (get key (now + x) (store key value k (advance now c))).1) (sym whole)
      ∙ get-store key value (ttl / c.interval - 1) now x (advance now c) (advance-IsValid now c v)
          (omega (arith, small, same_total)) near at h fits new
      ∙ ap (λ i. if ltb (x / i) (suc (ttl / c.interval - 1)) then some value else none)
          same_interval
      ∙ ap (λ k. if ltb (x / c.interval) k then some value else none) whole

  -- Right after an insertion that does not throw, at the same time below 2^64, `Get` finds the value at
  -- its key and at every other key what it found before.
  pub get-insert :
      (key k : ℕ) (value : A) (ttl now : ℕ) (c c' : Cache A)
      → now < 2 ^ 64
      → insert key value ttl now c ≡ ok c'
      → (get k now c').1 ≡ (if k == key then some value else (get k now c).1)
  get-insert key k value ttl now c c' small e =
      let made = insert_ok_any key value ttl now c c' e in
      let a = advance now c in
      let n = (if ttl == 0 then c.duration else ttl) / c.interval in
      ap (λ c. (get k now c).1) (sym made)
      ∙ get_lem k now (store key value n a)
      ∙ lookup-advance_again k now (store key value n a) small
          (current_ticks-store key value n a ∙ (advance-IsSameClock now c).0)
      ∙ lookup-store_any key k value n a
      ∙ ap (λ o. if k == key then some value else o) (sym (get_lem k now c))

  advance_no_time :
      (t : ℕ) (c : Cache A)
      → (delta_ticks t c == 0) ≡ true
      → advance t c ≡ record c { current_ticks = t }
  unfolding advance
  advance_no_time t c z = rw z refl

  -- The cache after looking for a key at each of the times.
  unfoldable pub poll : ℕ → List ℕ → Cache A → Cache A
  poll key [] c = c
  poll key (t ∷ ts) c = poll key ts (contains key t c).0

  -- However long it goes on, a cache that is looked at more often than once in an interval gives up
  -- nothing, from a time other than 0 on.
  pub poll_keeps :
      (key : ℕ) (ts : List ℕ) (c : Cache A)
      → 0 < c.current_ticks
      → Frequent c.interval c.current_ticks ts
      → (poll key ts c).cache ≡ c.cache
  unfolding poll contains
  poll_keeps key [] c h f = refl
  poll_keeps key (t ∷ ts) c h (le, lt, small, f) =
      ap (λ d. (poll key ts d).cache) (advance_no_time t c (delta_ticks_zero t c le small (inl lt)))
      ∙ poll_keeps key ts (record c { current_ticks = t }) (omega (arith, h, le)) f
