-- ===== src/TimeQueue/Scan.antt =====
-- What `Front` and `PopFront` find.
use libquicr.Prelude.{
  ℕ, zero, suc, ◌+◌, ◌-◌, ◌%◌, ◌^◌, ◌≤◌, ◌<◌, ◌≡◌, refl, ◌∙◌, ap, ◌⊎◌, inl, inr, true, false, some,
  List, [], ◌∷◌, arith, length, ltb, get_or, get_elem?, take, drop, All, Bool-cases, if◌then◌else◌,
  ltb→lt, ltb→le,
}
use libquicr.TimeQueue.{Entry, TimeQueue, Element, is_expired, scan, advance, front}

module _ {A : Type 0} (now : ℕ) (buckets : List (List A)) where
  abbrev pub IsExpired : Entry → Type 0
  IsExpired e = is_expired now buckets e ≡ true

  -- The entry that the loop stops at, and what it makes of it.
  abbrev pub Stops : Entry → Element A → Type 0
  Stops e r =
      (is_expired now buckets e ≡ false)
      × (((now < e.wait_for_tick) × (r.has_value ≡ false))
          ⊎ ((e.wait_for_tick ≤ now)
              × (r.has_value ≡ true)
              × (r.value ≡ get_elem? (get_or buckets e.bucket []) e.value_index)))

  -- The loop skips `k` entries, all expired, and counts them; then the entries are used up, or it
  -- stops at one that is not expired.
  abbrev pub Scanned : List Entry → ℕ → Element A → ℕ × Element A → Type 0
  Scanned es index elem (index', r) =
      (k : ℕ) × (index' ≡ index + k)
      × All IsExpired (take k es)
      × (r.expired_count ≡ (elem.expired_count + k) % 2 ^ 32)
      × (((k ≡ length es) × (r.has_value ≡ false))
          ⊎ ((e : Entry) × (get_elem? es k ≡ some e) × Stops e r))

  pub scan_live :
      (e : Entry) (es : List Entry) (index : ℕ) (elem : Element A)
      → is_expired now buckets e ≡ false
      → scan now buckets (e ∷ es) index elem ≡ (
          if ltb now e.wait_for_tick then (index, elem) else (
            index,
            record elem {
              has_value = true;
              value = get_elem? (get_or buckets e.bucket []) e.value_index;
            },
          ))
  unfolding scan
  scan_live e es index elem h = rw (h, scan)

  pub scan_skip :
      (e : Entry) (es : List Entry) (index : ℕ) (elem : Element A)
      → is_expired now buckets e ≡ true
      → scan now buckets (e ∷ es) index elem
        ≡ scan now buckets es
            (suc index)
            (record elem { expired_count = (elem.expired_count + 1) % 2 ^ 32 })
  unfolding scan
  scan_skip e es index elem h = rw (h, scan)

  Scanned-skip :
      (e : Entry) (es : List Entry) (index : ℕ) (elem : Element A) (r : ℕ × Element A)
      → IsExpired e
      → Scanned es (suc index) (record elem { expired_count = (elem.expired_count + 1) % 2 ^ 32 }) r
      → Scanned (e ∷ es) index elem r
  Scanned-skip e es index elem (i, r) dead (k, at_k, skipped, counted, inl (all, h)) =
      (suc k, omega (arith, at_k), (dead, skipped), omega (arith, counted), inl (ap suc all, h))
  Scanned-skip e es index elem (i, r) dead (k, at_k, skipped, counted, inr (x, here, stops)) =
      (suc k, omega (arith, at_k), (dead, skipped), omega (arith, counted), inr (x, here, stops))

  pub scan-Scanned :
      (es : List Entry) (index : ℕ) (elem : Element A)
      → elem.has_value ≡ false
      → elem.expired_count < 2 ^ 32
      → Scanned es index elem (scan now buckets es index elem)
  scan-Scanned [] index elem h c = unfold scan in (0, omega arith, tt, omega arith, inl (refl, h))
  scan-Scanned (e ∷ es) index elem h c = elim (Bool-cases (is_expired now buckets e)) [
    | inl dead ↦
        rw (scan_skip e es index elem dead)
          (Scanned-skip e es index elem _ dead (scan-Scanned es (suc index) _ h (omega arith)))
    | inr live ↦ rw (scan_live e es index elem live) (elim (Bool-cases (ltb now e.wait_for_tick)) [
      | inl wait ↦
          rw wait (0, omega arith, tt, omega arith, inr (e, refl, (live, inl (ltb→lt _ _ wait, h))))
      | inr go ↦
          rw go (
            0,
            omega arith,
            tt,
            omega arith,
            inr (e, refl, (live, inr (ltb→le _ _ go, refl, refl))),
          )
    ])
  ]

-- What `Front` stores in the caller's element and where it leaves the queue: it counts and passes the
-- expired entries in front, and gives the first other entry's value once its delay is over.
pub front-Scanned :
    {A : Type 0} (now : ℕ) (elem : Element A) (q : TimeQueue A)
    → let q' = advance now q in
      let r = front now elem q in
      Scanned now q'.buckets
        (drop q'.queue_index q'.queue)
        q'.queue_index
        (record elem { has_value = false; expired_count = 0 })
        (r.0.queue_index, r.1)
unfolding front
front-Scanned now elem q =
    scan-Scanned now (advance now q).buckets _ (advance now q).queue_index
      (record elem { has_value = false; expired_count = 0 }) refl (omega arith)

get_elem?-some :
    {B : Type 0} (xs : List B) (i : ℕ) → i < length xs → (b : B) × (get_elem? xs i ≡ some b)
get_elem?-some [] i h = elim h [ ]
get_elem?-some (x ∷ xs) zero h = (x, refl)
get_elem?-some (x ∷ xs) (suc i) h = get_elem?-some xs i (omega arith)

module _ {A : Type 0} (now : ℕ) (buckets : List (List A)) where
  live_entry :
      (e : Entry)
      → is_expired now buckets e ≡ false
      → (e.value_index < length (get_or buckets e.bucket [])) × (now ≤ e.expiry_tick)
  unfolding is_expired
  live_entry e h = ground arith

  -- A value that is given out belongs to an entry of the queue that has not outlived its time, and
  -- whose delay is over.
  abbrev pub IsFresh : List Entry → ℕ → ℕ × Element A → Type 0
  IsFresh es index (index', r) =
      (e : Entry) × (v : A) × (get_elem? es (index' - index) ≡ some e)
      × (r.value ≡ some v)
      × (now ≤ e.expiry_tick)
      × (e.wait_for_tick ≤ now)

  Scanned-IsFresh :
      (es : List Entry) (index : ℕ) (elem : Element A) (r : ℕ × Element A)
      → r.1.has_value ≡ true
      → Scanned now buckets es index elem r
      → IsFresh es index r
  Scanned-IsFresh es index elem (i, r) h (k, at_k, skipped, counted, inl (all, n)) = cc
  Scanned-IsFresh es index elem (i, r) h
        (k, at_k, skipped, counted, inr (e, here, (live, inl (w, n)))) =
      cc
  Scanned-IsFresh es index elem (i, r) h
        (k, at_k, skipped, counted, inr (e, here, (live, inr (w, y, v)))) =
      let (value, there) =
        get_elem?-some (get_or buckets e.bucket []) e.value_index (live_entry e live).0 in
      (
        e,
        value,
        ap (λ n. get_elem? es n) (let d : i - index ≡ k = omega (arith, at_k) in d) ∙ here,
        v ∙ there,
        (live_entry e live).1,
        w,
      )

-- When `Front` gives a value, it gives it for an entry behind `queue_index_` whose expiry tick is not
-- past and whose delay is over.
pub front-IsFresh :
    {A : Type 0} (now : ℕ) (elem : Element A) (q : TimeQueue A)
    → (front now elem q).1.has_value ≡ true
    → let q' = advance now q in
      let r = front now elem q in
      IsFresh now q'.buckets (drop q'.queue_index q'.queue) q'.queue_index (r.0.queue_index, r.1)
front-IsFresh now elem q h =
    Scanned-IsFresh now (advance now q).buckets _ (advance now q).queue_index
      (record elem { has_value = false; expired_count = 0 }) _ h (front-Scanned now elem q)
