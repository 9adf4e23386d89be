-- ===== src/TimeQueue/FirstPush.antt =====
-- What `Front` finds of the first value that is pushed to a queue.
use native.Mathlib.Nat.{
  mod-eq_of_lt, div-mul-le_self, le-div_iff_mul-le, mul-le-mul_right, lt-mul-div-succ,
  eq-zero-or-pos, div-zero,
}
use libquicr.Prelude.{
  ℕ, ◌+◌, ◌-◌, ◌/◌, ◌%◌, ◌^◌, ◌≤◌, ◌<◌, ◌≡◌, refl, sym, ◌∙◌, ap, false, ◌||◌, List, [], arith, ltb,
  ◌==◌, get_or-replicate, inl, inr, ok, sub64, u64, div-le-div,
}
use libquicr.TimeQueue.{TimeQueue, Element, new, advance, enqueue, push, front}
use libquicr.TimeQueue.Invariant.{new-IsValid, fresh, new_ok}
use libquicr.TimeQueue.Lifetime.{holding, has_value-front-holding}

-- A time of fewer intervals than another has ended by then.
within : (x ttl i : ℕ) → 0 < i → x / i < ttl / i → x ≤ ttl
within x ttl i h lt = omega (
  arith,
  lt-mul-div-succ x h,
  mul-le-mul_right i (let le : x / i + 1 ≤ ttl / i = omega (arith, lt) in le),
  div-mul-le_self ttl i,
)

module _ {A : Type 0} where
  advance-fresh :
      (d i now : ℕ) → advance now (fresh A d i) ≡ record (fresh A d i) { current_ticks = now }
  unfolding advance
  advance-fresh d i now = refl

  push-fresh :
      (d i : ℕ) (value : A) (ttl now : ℕ)
      → ttl ≤ d
      → 0 < i
      → i ≤ ttl
      → d / i < 2 ^ 32
      → now + ttl < 2 ^ 64
      → push value ttl 0 now (fresh A d i)
        ≡ ok (holding (ttl / i - 1) value now (now + ttl) (fresh A d i))
  unfolding push enqueue advance
  push-fresh d i value ttl now le pos long few fits =
      let nil : List A = [] in
      let one : 1 ≤ ttl / i = (le-div_iff_mul-le pos).1 (omega (arith, long)) in
      let low : ltb d ttl ≡ false = ground (arith, le) in
      let some_time : (ttl == 0) ≡ false = ground (arith, pos, long) in
      let most : ttl / i ≤ d / i = div-le-div ttl d i pos le in
      let future : sub64 (0 + ttl / i) 1 % (d / i) ≡ ttl / i - 1 =
        ap (λ n. n % (d / i))
          (let e : sub64 (0 + ttl / i) 1 ≡ ttl / i - 1 = omega (arith, one, most, few) in e)
        ∙ mod-eq_of_lt (omega (arith, one, most)) in
      let expiry : u64 (now + ttl) ≡ now + ttl = mod-eq_of_lt fits in
      let wait : u64 (now + 0) ≡ now = omega (arith, fits) in
      rw (low, some_time, future, expiry, wait, get_or-replicate (d / i) (ttl / i - 1) nil) refl

  front-push-fresh :
      (d i : ℕ) (value : A) (ttl now x : ℕ) (elem : Element A) (q' : TimeQueue A)
      → ttl ≤ d
      → 0 < i
      → i ≤ ttl
      → d / i < 2 ^ 32
      → 0 < now
      → now + ttl < 2 ^ 64
      → now + x < 2 ^ 64
      → push value ttl 0 now (fresh A d i) ≡ ok q'
      → (front (now + x) elem q').1.has_value ≡ (x == 0 || ltb (x / i) (ttl / i - 1))
  front-push-fresh d i value ttl now x elem q' le pos long few h fits small e =
      let one : 1 ≤ ttl / i = (le-div_iff_mul-le pos).1 (omega (arith, long)) in
      let most : ttl / i ≤ d / i = div-le-div ttl d i pos le in
      let same : holding (ttl / i - 1) value now (now + ttl) (fresh A d i) ≡ q' =
        ground (arith, push-fresh d i value ttl now le pos long few fits, e) in
      ap (λ q. (front (now + x) elem q).1.has_value) (sym same)
      ∙ has_value-front-holding (ttl / i - 1) now x (now + ttl) value elem (fresh A d i) h small
          (omega (arith, one, most)) few
          (λ lt. omega (arith, within x ttl i pos (omega (arith, lt)))) (omega arith)

  push_within :
      (value : A) (ttl now : ℕ) (q q' : TimeQueue A)
      → push value ttl 0 now q ≡ ok q'
      → ttl ≤ q.duration
  unfolding push
  push_within value ttl now q q' e = ground (arith, e)

  -- The first value that is pushed to a queue, with no delay and a time to live of an interval or more,
  -- is found at the same tick, and later only until one whole interval less has passed than its time to
  -- live has. The queue has fewer than 2^32 buckets, the push is not at tick 0, no tick passes 2^64, and
  -- the queue is read once, `x` later.
  pub front-push_of_new :
      (d i : ℕ) (q q' : TimeQueue A) (value : A) (ttl now x : ℕ) (elem : Element A)
      → new d i ≡ ok q
      → q.total_buckets < 2 ^ 32
      → q.interval ≤ ttl
      → 0 < now
      → now + ttl < 2 ^ 64
      → now + x < 2 ^ 64
      → push value ttl 0 now q ≡ ok q'
      → (front (now + x) elem q').1.has_value
        ≡ (x == 0 || ltb (x / q.interval) (ttl / q.interval - 1))
  front-push_of_new d i q q' value ttl now x elem made few long h fits small e =
      let from_new = (new_ok d i q made).2 in
      let same : fresh A d q.interval ≡ q =
        ap (λ i. fresh A d i) (sym (ap (λ q. q.interval) from_new)) ∙ from_new in
      let total : d / q.interval ≡ q.total_buckets = ap (λ q. q.total_buckets) same in
      let positive = (new-IsValid d i q made).positive in
      let pos : 0 < q.interval = elim (eq-zero-or-pos q.interval) [
        | inl z ↦ absurd (omega (arith, positive, total, ap (λ i. d / i) z, div-zero d))
        | inr p ↦ p
      ] in
      front-push-fresh d q.interval value ttl now x elem q'
        (omega (arith, push_within value ttl now q q' e, ap (λ q. q.duration) same)) pos long
        (omega (arith, few, total)) h fits small (ap (λ q. push value ttl 0 now q) same ∙ e)
