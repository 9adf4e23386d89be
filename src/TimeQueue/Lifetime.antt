-- ===== src/TimeQueue/Lifetime.antt =====
-- How long a value stays that is pushed to a queue that was just made.

use libquicr.Prelude.{
  ℕ, ◌+◌, ◌/◌, ◌^◌, ◌≤◌, ◌<◌, ◌≡◌, refl, ◌∙◌, ap, true, false, ◌||◌, not, List, [], ◌∷◌, arith, leb,
  ltb, ◌==◌, get_or, set, if◌then◌else◌, replicate, length-replicate, Bool-cases, inl, inr, u64,
}
use libquicr.TimeQueue.{
  TimeQueue, Entry, Element, clear, clear_range, slide, elapsed, advance, is_expired, scan, front,
}
use libquicr.TimeQueue.Scan.{scan_live, scan_skip}
use libquicr.TimeQueue.Buckets.{get_or-set_self, length-set}

module _ {A : Type 0} where
  -- One value, in bucket `w` of a queue at tick `now`.
  abbrev pub holding : ℕ → A → ℕ → ℕ → TimeQueue A → TimeQueue A
  holding w value now expiry q = record q {
    bucket_index = 0;
    queue_index = 0;
    current_ticks = now;
    buckets = set (replicate q.total_buckets []) w (value ∷ []);
    bucket_inuse_indexes = w ∷ [];
    queue = record { bucket = w; value_index = 0; expiry_tick = expiry; wait_for_tick = now } ∷ [];
  }

  -- What `Front` makes of one entry whose delay is over.
  has_value-scan_one :
      (now : ℕ) (b : List (List A)) (e : Entry) (elem : Element A)
      → elem.has_value ≡ false
      → e.wait_for_tick ≤ now
      → (scan now b (e ∷ []) 0 elem).1.has_value ≡ not (is_expired now b e)
  unfolding scan
  has_value-scan_one now b e elem h le = elim (Bool-cases (is_expired now b e)) [
    | inl t ↦ rw (scan_skip now b e [] 0 elem t, t) h
    | inr f ↦
        let go : ltb now e.wait_for_tick ≡ false = ground arith in
        rw (scan_live now b e [] 0 elem f, go, f) refl
  ]

  expired_in :
      (now w expiry : ℕ) (value : A) (b : List (List A)) (wait : ℕ)
      → get_or b w [] ≡ value ∷ []
      → now ≤ expiry
      → is_expired now b
          (record { bucket = w; value_index = 0; expiry_tick = expiry; wait_for_tick = wait })
        ≡ false
  unfolding is_expired
  expired_in now w expiry value b wait e le = rw e (ground arith)

  expired_out :
      (now w expiry : ℕ) (b : List (List A)) (wait : ℕ)
      → get_or b w [] ≡ []
      → is_expired now b
          (record { bucket = w; value_index = 0; expiry_tick = expiry; wait_for_tick = wait })
        ≡ true
  unfolding is_expired
  expired_out now w expiry b wait e = rw e refl

  -- The buckets after a slide that stays within the queue.
  slide-holding :
      (w delta now t expiry : ℕ) (value : A) (q : TimeQueue A)
      → delta < q.total_buckets
      → q.total_buckets < 2 ^ 32
      → (slide delta (record (holding w value now expiry q) { current_ticks = t })).buckets ≡ (
          if leb w delta
          then set (set (replicate q.total_buckets []) w (value ∷ [])) w []
          else set (replicate q.total_buckets []) w (value ∷ []))
  unfolding slide clear_range
  slide-holding w delta now t expiry value q lt small =
      let low : ltb q.total_buckets (u64 (0 + delta)) ≡ false = ground (arith, lt, small) in
      let same : u64 (0 + delta) ≡ delta = omega (arith, lt, small) in
      let zero_in : leb 0 w ≡ true = ground arith in
      elim (Bool-cases (leb w delta)) [
        | inl t ↦ rw (low, same, zero_in, t) refl
        | inr f ↦ rw (low, same, zero_in, f) refl
      ]

  has_value-front_one :
      (t : ℕ) (elem : Element A) (q : TimeQueue A) (e : Entry)
      → (advance t q).queue_index ≡ 0
      → (advance t q).queue ≡ e ∷ []
      → e.wait_for_tick ≤ t
      → (front t elem q).1.has_value ≡ not (is_expired t (advance t q).buckets e)
  unfolding front
  has_value-front_one t elem q e index queue le =
      rw (index, queue)
        (has_value-scan_one t (advance t q).buckets e
          (record elem { has_value = false; expired_count = 0 }) refl le)

  has_value-front_none :
      (t : ℕ) (elem : Element A) (q : TimeQueue A)
      → (advance t q).queue_index ≡ 0
      → (advance t q).queue ≡ []
      → (front t elem q).1.has_value ≡ false
  unfolding front scan
  has_value-front_none t elem q index queue = rw (index, queue) refl

  slide-queue :
      (delta : ℕ) (q : TimeQueue A)
      → ((slide delta q).queue_index ≡ q.queue_index) × ((slide delta q).queue ≡ q.queue)
  unfolding slide clear_range
  slide-queue delta q = elim (Bool-cases (ltb q.total_buckets (u64 (q.bucket_index + delta)))) [
    | inl t ↦ rw t (refl, refl)
    | inr f ↦ rw f (refl, refl)
  ]

  advance_still :
      (t : ℕ) (q : TimeQueue A)
      → (elapsed t q == 0) ≡ true
      → advance t q ≡ record q { current_ticks = t }
  unfolding advance
  advance_still t q h = rw h refl

  advance_past :
      (t : ℕ) (q : TimeQueue A)
      → (elapsed t q == 0) ≡ false
      → leb q.total_buckets (elapsed t q / q.interval) ≡ true
      → advance t q ≡ clear (record q { current_ticks = t })
  unfolding advance
  advance_past t q h k = rw (h, k) refl

  advance-slide :
      (t : ℕ) (q : TimeQueue A)
      → (elapsed t q == 0) ≡ false
      → leb q.total_buckets (elapsed t q / q.interval) ≡ false
      → advance t q ≡ slide (elapsed t q / q.interval) (record q { current_ticks = t })
  unfolding advance
  advance-slide t q h k = rw (h, k) refl

  elapsed-holding :
      (w now x expiry : ℕ) (value : A) (q : TimeQueue A)
      → 0 < now
      → now + x < 2 ^ 64
      → elapsed (now + x) (holding w value now expiry q) ≡ x
  elapsed-holding w now x expiry value q h small =
      let z : (now == 0) ≡ false = ground arith in rw z (omega (arith, small))

  -- What `Front` finds of one value, `x` after it was put in bucket `w`.
  pub has_value-front-holding :
      (w now x expiry : ℕ) (value : A) (elem : Element A) (q : TimeQueue A)
      → 0 < now
      → now + x < 2 ^ 64
      → w < q.total_buckets
      → q.total_buckets < 2 ^ 32
      → (x / q.interval < w → now + x ≤ expiry)
      → now ≤ expiry
      → (front (now + x) elem (holding w value now expiry q)).1.has_value
        ≡ (x == 0 || ltb (x / q.interval) w)
  unfolding clear
  has_value-front-holding w now x expiry value elem q h small near few alive start =
      let nil : List A = [] in
      let s = holding w value now expiry q in
      let t = now + x in
      let e : Entry = record {
        bucket = w;
        value_index = 0;
        expiry_tick = expiry;
        wait_for_tick = now;
      } in
      let passed = elapsed-holding w now x expiry value q h small in
      let there : get_or s.buckets w [] ≡ value ∷ [] =
        get_or-set_self (replicate q.total_buckets []) w (value ∷ [])
          (omega (arith, near, length-replicate q.total_buckets nil)) in
      elim (Bool-cases (x == 0)) [
        | inl z ↦
            let still = advance_still t s (ap (λ n. n == 0) passed ∙ z) in
            has_value-front_one t elem s e (ap (λ q. q.queue_index) still) (ap (λ q. q.queue) still)
              (omega arith)
            ∙ ap (λ b. not (is_expired t b e)) (ap (λ q. q.buckets) still)
            ∙ ap not (expired_in t w expiry value s.buckets now there (ground (arith, z, start)))
            ∙ ground (arith, z)
        | inr n ↦ elim (Bool-cases (leb q.total_buckets (x / q.interval))) [
          | inl l ↦
              let past =
                advance_past t s (ap (λ n. n == 0) passed ∙ n)
                  (ap (λ n. leb q.total_buckets (n / q.interval)) passed ∙ l) in
              has_value-front_none t elem s (ap (λ q. q.queue_index) past) (ap (λ q. q.queue) past)
              ∙ ground (arith, n, l, near)
          | inr g ↦
              let s' = record s { current_ticks = t } in
              let delta = x / q.interval in
              let slid : advance t s ≡ slide delta s' =
                advance-slide t s (ap (λ n. n == 0) passed ∙ n)
                  (ap (λ n. leb q.total_buckets (n / q.interval)) passed ∙ g)
                ∙ ap (λ n. slide (n / q.interval) s') passed in
              has_value-front_one t elem s e
                (ap (λ q. q.queue_index) slid ∙ (slide-queue delta s').0)
                (ap (λ q. q.queue) slid ∙ (slide-queue delta s').1) (omega arith)
              ∙ ap (λ b. not (is_expired t b e))
                  (ap (λ q. q.buckets) slid
                    ∙ slide-holding w delta now t expiry value q (ground (arith, g)) few)
              ∙ elim (Bool-cases (leb w delta)) [
                | inl o ↦ rw o (
                    ap not (
                      expired_out t w expiry (set s.buckets w []) now (
                        get_or-set_self s.buckets w [] (
                          omega (
                            arith,
                            near,
                            length-set (replicate q.total_buckets nil) w (value ∷ []),
                            length-replicate q.total_buckets nil,
                          ))))
                    ∙ ground (arith, o, n))
                | inr k ↦ rw k (
                    ap not
                      (expired_in t w expiry value s.buckets now there (alive (ground (arith, k))))
                    ∙ ground (arith, k))
              ]
        ]
      ]
