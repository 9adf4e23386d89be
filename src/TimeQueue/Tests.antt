-- ===== src/TimeQueue/Tests.antt =====
-- Runs of a time queue of 4 buckets of 10 milliseconds.
use libquicr.Prelude.{
  ℕ, ◌≡◌, refl, true, false, none, some, List, [], ◌∷◌, ok, undefined, throws, invalid_argument,
  drop, ◌+◌, arith,
}
use libquicr.TimeQueue.{
  TimeQueue, Element, new, push, front, pop, clear, size, advance, scan, is_expired, enqueue, slide,
  clear_range, pop_front,
}
use libquicr.TimeQueue.Scan.{front-Scanned, front-IsFresh, Scanned, IsFresh}
use libquicr.TimeQueue.Invariant.{IsValid}
use libquicr.TimeQueue.FirstPush.{front-push_of_new}
use libquicr.TimeQueue.Runs.{
  Op, push_op, front_op, pop_front_op, pop_op, clear_op, run, run-IsValid,
}

abbrev storage : Element ℕ
storage = record { has_value = false; expired_count = 0; value = none }

abbrev fresh_queue : TimeQueue ℕ
fresh_queue = record {
  duration = 40;
  interval = 10;
  total_buckets = 4;
  bucket_index = 0;
  queue_index = 0;
  current_ticks = 0;
  buckets = [] ∷ [] ∷ [] ∷ [] ∷ [];
  bucket_inuse_indexes = [];
  queue = [];
}

new_40_10 : new 40 10 ≡ ok fresh_queue
unfolding new
new_40_10 = refl

new_zero_interval : new {A = ℕ} 40 0 ≡ undefined
unfolding new
new_zero_interval = refl

new_rest : new {A = ℕ} 45 10 ≡ throws invalid_argument
unfolding new
new_rest = refl

abbrev two_pushed : TimeQueue ℕ
two_pushed = run (push_op 7 30 0 100 ∷ push_op 8 20 5 105 ∷ []) fresh_queue

has_value_at_106 : (front 106 storage two_pushed).1.has_value ≡ true
unfolding front scan is_expired push enqueue advance slide clear clear_range
has_value_at_106 = refl

value_at_106 : (front 106 storage two_pushed).1.value ≡ some 7
unfolding front scan is_expired push enqueue advance slide clear clear_range
value_at_106 = refl

-- At 125 the bucket of the second value, which expires at 125, is cleared already.
lost_at_125 :
    ((front 125 storage two_pushed).1.value ≡ none)
    × ((front 125 storage two_pushed).1.expired_count ≡ 2)
unfolding front scan is_expired push enqueue advance slide clear clear_range
lost_at_125 = (refl, refl)

front-Scanned_example :
    let q' = advance 106 two_pushed in
    let r = front 106 storage two_pushed in
    Scanned 106 q'.buckets
      (drop q'.queue_index q'.queue)
      q'.queue_index
      (record storage { has_value = false; expired_count = 0 })
      (r.0.queue_index, r.1)
front-Scanned_example = front-Scanned 106 storage two_pushed

front-IsFresh_example :
    let q' = advance 106 two_pushed in
    let r = front 106 storage two_pushed in
    IsFresh 106 q'.buckets (drop q'.queue_index q'.queue) q'.queue_index (r.0.queue_index, r.1)
front-IsFresh_example = front-IsFresh 106 storage two_pushed has_value_at_106

abbrev ops : List (Op ℕ)
ops = push_op 7 30 0 100 ∷ pop_front_op 101 storage ∷ pop_op ∷ front_op 125 storage ∷ clear_op ∷ []

run-IsValid_example : IsValid (run ops fresh_queue)
run-IsValid_example = run-IsValid 40 10 fresh_queue ops new_40_10

-- `Pop()` on a queue whose entries are used up moves past the end, and `Size()` wraps.
size_past_the_end :
    size (run (push_op 7 30 0 100 ∷ pop_op ∷ pop_op ∷ []) fresh_queue) ≡ 18446744073709551615
unfolding size push enqueue advance pop
size_past_the_end = refl

abbrev one_pushed : TimeQueue ℕ
one_pushed = record fresh_queue {
  current_ticks = 100;
  buckets = [] ∷ [] ∷ (7 ∷ []) ∷ [] ∷ [];
  bucket_inuse_indexes = 2 ∷ [];
  queue = record { bucket = 2; value_index = 0; expiry_tick = 130; wait_for_tick = 100 } ∷ [];
}

push_at_100 : push 7 30 0 100 fresh_queue ≡ ok one_pushed
unfolding push enqueue advance
push_at_100 = refl

front-push_of_new_example : (front (100 + 19) storage one_pushed).1.has_value ≡ true
front-push_of_new_example =
    front-push_of_new 40 10 fresh_queue one_pushed 7 30 100 19 storage new_40_10 (omega arith)
      (omega arith) (omega arith) (omega arith) (omega arith) push_at_100

-- The second value is put where the first one was cleared, and is given for both entries.
abbrev reused : TimeQueue ℕ
reused = run (push_op 7 20 0 100 ∷ push_op 8 10 0 110 ∷ []) fresh_queue

given_twice :
    ((pop_front 110 storage reused).1.value ≡ some 8)
    × ((pop_front 110 storage (pop_front 110 storage reused).0).1.value ≡ some 8)
unfolding pop_front pop front scan is_expired push enqueue advance slide clear clear_range
given_twice = (refl, refl)

-- A time to live of one interval ends within a millisecond.
lost_at_once : (front 101 storage (run (push_op 7 10 0 100 ∷ []) fresh_queue)).1.has_value ≡ false
unfolding front scan is_expired push enqueue advance slide clear clear_range
lost_at_once = refl
