-- ===== src/TimeQueue.antt =====
-- include/quicr/detail/time_queue.h: a first-in first-out queue whose values expire.
-- A queue entry holds a reference to its bucket; here it holds the bucket's index, which does not
-- change. `tick_service_->Milliseconds()` is an argument of the calls that read it, `now`.
pub mod Scan
pub mod Buckets
pub mod Invariant
pub mod Runs
pub mod Lifetime
pub mod FirstPush
mod Tests
use libquicr.Prelude.{
  ℕ, suc, ◌+◌, ◌/◌, ◌%◌, ◌^◌, Bool, true, false, ◌||◌, ◌&&◌, not, Option, List, [], ◌∷◌, ◌++◌,
  Outcome, ok, throws, undefined, invalid_argument, ltb, leb, ◌==◌, sub64, u64, if◌then◌else◌,
  length, get_or, get_elem?, set, drop, replicate, is_nil,
}

pub record Entry : Type 0 where
  pub bucket : ℕ
  pub value_index : ℕ
  pub expiry_tick : ℕ
  pub wait_for_tick : ℕ

pub record TimeQueue (A : Type 0) : Type 0 where
  pub duration : ℕ
  pub interval : ℕ
  pub total_buckets : ℕ
  pub bucket_index : ℕ
  pub queue_index : ℕ
  pub current_ticks : ℕ
  pub buckets : List (List A)
  pub bucket_inuse_indexes : List ℕ
  pub queue : List Entry

-- `TimeQueueElement`: `value` is what the caller's storage holds, if anything was put there.
pub record Element (A : Type 0) : Type 0 where
  pub has_value : Bool
  pub expired_count : ℕ
  pub value : Option A

abbrev pub max_buckets : ℕ
max_buckets = 1000

-- Insertion into a `std::set`.
abbrev pub insert_index : ℕ → List ℕ → List ℕ
insert_index i [] = i ∷ []
insert_index i (j ∷ js) =
    if i == j then j ∷ js else if ltb i j then i ∷ j ∷ js else j ∷ insert_index i js

abbrev pub in_range : ℕ → ℕ → ℕ → Bool
in_range start end i = leb start i && leb i end

module _ {A : Type 0} where
  -- The constructor. `duration / interval` by 0 is undefined.
  unfoldable pub new : ℕ → ℕ → Outcome (TimeQueue A)
  new duration interval =
      let interval' =
        if ltb max_buckets (duration / interval) then duration / max_buckets else interval in
      let total = duration / interval' in
      if interval == 0
      then undefined
      else if (duration == 0 || not (duration % interval == 0)) || duration == interval
      then throws invalid_argument
      else ok (record {
        duration = duration;
        interval = interval';
        total_buckets = total;
        bucket_index = 0;
        queue_index = 0;
        current_ticks = 0;
        buckets = replicate total [];
        bucket_inuse_indexes = [];
        queue = [];
      })

  abbrev pub clear_bucket : ℕ → List (List A) → List (List A)
  clear_bucket i buckets = set buckets i []

  abbrev clear_buckets : List ℕ → List (List A) → List (List A)
  clear_buckets [] buckets = buckets
  clear_buckets (i ∷ is) buckets = clear_buckets is (clear_bucket i buckets)

  unfoldable pub clear : TimeQueue A → TimeQueue A
  clear q = if is_nil q.queue then q else record q {
    queue = [];
    buckets = clear_buckets q.bucket_inuse_indexes q.buckets;
    bucket_inuse_indexes = [];
    queue_index = 0;
    bucket_index = 0;
  }

  -- The loop of `ClearRange` over the indexes in use: the buckets, and the indexes that stay in use.
  abbrev pub sweep : ℕ → ℕ → List ℕ → List (List A) → List ℕ → List (List A) × List ℕ
  sweep start end [] buckets kept = (buckets, kept)
  sweep start end (i ∷ is) buckets kept =
      sweep start end is (if in_range start end i then clear_bucket i buckets else buckets)
        (if in_range start end i then kept else insert_index i kept)

  unfoldable pub clear_range : ℕ → ℕ → TimeQueue A → TimeQueue A
  clear_range start end q = record q {
    buckets = (sweep start end q.bucket_inuse_indexes q.buckets []).0;
    bucket_inuse_indexes = (sweep start end q.bucket_inuse_indexes q.buckets []).1;
  }

  abbrev pub set_bucket_index : ℕ → TimeQueue A → TimeQueue A
  set_bucket_index i q = record q { bucket_index = i }

  -- `Advance()` once `delta` is counted in intervals and is not past the whole queue.
  unfoldable pub slide : ℕ → TimeQueue A → TimeQueue A
  slide delta q =
      let next = u64 (q.bucket_index + delta) % q.total_buckets in
      if ltb q.total_buckets (u64 (q.bucket_index + delta))
      then clear_range 0 next (set_bucket_index next (clear_range q.bucket_index q.total_buckets q))
      else set_bucket_index next (clear_range q.bucket_index (u64 (q.bucket_index + delta)) q)

  abbrev pub elapsed : ℕ → TimeQueue A → ℕ
  elapsed now q = if q.current_ticks == 0 then 0 else sub64 now q.current_ticks

  -- `Advance()`, which returns `now`.
  unfoldable pub advance : ℕ → TimeQueue A → TimeQueue A
  advance now q =
      let delta = elapsed now q in
      let q' = record q { current_ticks = now } in
      if delta == 0
      then q'
      else if leb q.total_buckets (delta / q.interval)
      then clear q'
      else slide (delta / q.interval) q'

  -- `InternalPush` behind its checks, on the advanced queue; `ttl` is not 0.
  unfoldable pub enqueue : A → ℕ → ℕ → ℕ → TimeQueue A → TimeQueue A
  enqueue value ttl delay_ttl now q =
      let future = sub64 (q.bucket_index + ttl / q.interval) 1 % q.total_buckets in
      let bucket = get_or q.buckets future [] in
      record q {
        bucket_inuse_indexes = insert_index future q.bucket_inuse_indexes;
        buckets = set q.buckets future (bucket ++ (value ∷ []));
        queue =
            q.queue
            ++ (record {
              bucket = future;
              value_index = length bucket;
              expiry_tick = u64 (now + ttl);
              wait_for_tick = u64 (now + delay_ttl);
            }
                ∷ []);
      }

  -- `Push(value, ttl, delay_ttl)`
  unfoldable pub push : A → ℕ → ℕ → ℕ → TimeQueue A → Outcome (TimeQueue A)
  push value ttl delay_ttl now q =
      if ltb q.duration ttl
      then throws invalid_argument
      else ok (enqueue value (if ttl == 0 then q.duration else ttl) delay_ttl now (advance now q))

  -- Whether `Front` counts an entry as expired.
  unfoldable pub is_expired : ℕ → List (List A) → Entry → Bool
  is_expired now buckets e =
      leb (length (get_or buckets e.bucket [])) e.value_index || ltb e.expiry_tick now

  -- The loop of `Front`, over the entries from `queue_index` on: the new index and the element.
  unfoldable pub scan : ℕ → List (List A) → List Entry → ℕ → Element A → ℕ × Element A
  scan now buckets [] index elem = (index, elem)
  scan now buckets (e ∷ es) index elem = elim (is_expired now buckets e) [
    | true ↦
        scan now buckets es (suc index)
          (record elem { expired_count = (elem.expired_count + 1) % 2 ^ 32 })
    | false ↦ if ltb now e.wait_for_tick then (index, elem) else (
      index,
      record elem {
        has_value = true;
        value = get_elem? (get_or buckets e.bucket []) e.value_index;
      },
    )
  ]

  -- `Front(elem)`
  unfoldable pub front : ℕ → Element A → TimeQueue A → TimeQueue A × Element A
  front now elem q =
      let q' = advance now q in
      let r =
        scan now q'.buckets (drop q'.queue_index q'.queue) q'.queue_index
          (record elem { has_value = false; expired_count = 0 }) in
      (record q' { queue_index = r.0 }, r.1)

  -- `Pop()`
  unfoldable pub pop : TimeQueue A → TimeQueue A
  pop q = if is_nil q.queue then q else record q { queue_index = suc q.queue_index }

  abbrev pub pop_if : TimeQueue A × Element A → TimeQueue A × Element A
  pop_if (q, elem) = (if elem.has_value then pop q else q, elem)

  -- `PopFront(elem)`
  unfoldable pub pop_front : ℕ → Element A → TimeQueue A → TimeQueue A × Element A
  pop_front now elem q = pop_if (front now elem q)

  -- `Size()`, as a `size_t`, and `Empty()`
  unfoldable pub size : TimeQueue A → ℕ
  size q = sub64 (length q.queue) q.queue_index

  unfoldable pub empty : TimeQueue A → Bool
  empty q = is_nil q.queue || leb (length q.queue) q.queue_index
