-- ===== src/PriorityQueue/Tests.antt =====
-- Runs of a priority queue.
use libquicr.Prelude.{
  ℕ, ◌≡◌, refl, true, false, none, some, Option, [], ◌∷◌, Outcome, ok, Exception, arith, throws,
  undefined, unfinished, map,
}
use libquicr.TimeQueue.{
  TimeQueue, Element, front as front_timed, pop_front as pop_front_timed, push as push_timed,
  new as new_timed, enqueue, advance, scan, is_expired, slide, clear_range, clear as clear_timed,
  pop as pop_timed,
}
use libquicr.PriorityQueue.{
  PriorityQueue, new, init_free, push, get_queue, add_group, front, pop_front, empty, remove_group,
  pop, clear,
}
use libquicr.TimeQueue.Invariant.{IsValid, new-IsValid}
use libquicr.PriorityQueue.Each.{OnOk}
use libquicr.PriorityQueue.Invariant.{QueuesAreValid}
use libquicr.PriorityQueue.Operations.{every-QueuesAreValid}
use libquicr.PriorityQueue.Choice.{Outcomes}
use libquicr.PriorityQueue.Order.{all_placed, Ascends, front-Ascends}

abbrev storage : Element ℕ
storage = record { has_value = false; expired_count = 0; value = none }

abbrev timed : TimeQueue ℕ
timed = record {
  duration = 40;
  interval = 10;
  total_buckets = 4;
  bucket_index = 0;
  queue_index = 0;
  current_ticks = 0;
  buckets = [] ∷ [] ∷ [] ∷ [] ∷ [];
  bucket_inuse_indexes = [];
  queue = [];
}

abbrev fresh_queue : PriorityQueue ℕ
fresh_queue = record { duration = 40; interval = 10; queues = []; free = timed ∷ timed ∷ [] }

new_40_10 : new 40 10 ≡ ok fresh_queue
unfolding new init_free new_timed
new_40_10 = refl

-- Group 3 of priority 1 is served before group 2 of priority 5.
abbrev after_push : Outcome (PriorityQueue ℕ × Option Exception) → PriorityQueue ℕ
after_push (ok (q, e)) = q
after_push _ = fresh_queue

abbrev two_groups : PriorityQueue ℕ
two_groups = after_push (push 3 8 30 1 0 100 (after_push (push 2 7 30 5 0 100 fresh_queue)))

first_by_priority : (pop_front 106 storage two_groups).1.value ≡ some 8
unfolding push get_queue add_group pop_front pop_front_timed pop_timed front_timed push_timed
    advance enqueue scan is_expired slide clear_range clear_timed
first_by_priority = refl

-- A group whose first object still waits for its delay is removed by `Front`, and its objects with it.
abbrev delayed : PriorityQueue ℕ
delayed = after_push (push 2 7 30 5 20 100 fresh_queue)

delayed_lost :
    ((front 106 storage delayed).1.has_value ≡ false) × (empty (front 106 storage delayed).0 ≡ true)
unfolding push get_queue add_group front front_timed push_timed advance enqueue scan is_expired
    slide clear_range clear_timed remove_group empty
delayed_lost = (refl, refl)

timed_40_10 : new_timed 40 10 ≡ ok timed
unfolding new_timed
timed_40_10 = refl

fresh_queue-QueuesAreValid : QueuesAreValid fresh_queue
fresh_queue-QueuesAreValid =
    let valid : IsValid timed = new-IsValid 40 10 timed timed_40_10 in
    record {
      sorted = tt;
      in_use = tt;
      free = ((valid, refl), ((valid, refl), tt));
      few = omega arith;
    }

pushed-QueuesAreValid :
    (r : Outcome (PriorityQueue ℕ × Option Exception))
    → OnOk (λ r. QueuesAreValid r.0) r
    → QueuesAreValid (after_push r)
pushed-QueuesAreValid (ok (q, e)) h = h
pushed-QueuesAreValid (throws e) h = fresh_queue-QueuesAreValid
pushed-QueuesAreValid undefined h = fresh_queue-QueuesAreValid
pushed-QueuesAreValid unfinished h = fresh_queue-QueuesAreValid

two_groups-QueuesAreValid : QueuesAreValid two_groups
two_groups-QueuesAreValid =
    let one =
      pushed-QueuesAreValid (push 2 7 30 5 0 100 fresh_queue)
        (every-QueuesAreValid fresh_queue 2 5 30 0 100 7 storage fresh_queue-QueuesAreValid).0 in
    pushed-QueuesAreValid _ (every-QueuesAreValid _ 3 1 30 0 100 8 storage one).0

front-Ascends_example :
    (let entries = all_placed two_groups.queues in
      let ts = map (λ e. e.1) entries in
      Ascends entries
      × Outcomes (λ e t. front_timed 106 e t) ts (front 106 storage two_groups).1
      × Outcomes (λ e t. pop_front_timed 106 e t) ts (pop_front 106 storage two_groups).1)
front-Ascends_example = front-Ascends 106 storage two_groups two_groups-QueuesAreValid

every-QueuesAreValid_example :
    OnOk (λ r. QueuesAreValid r.0) (push 2 7 30 5 20 100 fresh_queue)
    × QueuesAreValid (front 100 storage fresh_queue).0
    × QueuesAreValid (pop_front 100 storage fresh_queue).0
    × QueuesAreValid (pop fresh_queue)
    × OnOk QueuesAreValid (clear fresh_queue)
    × OnOk QueuesAreValid (new {A = ℕ} 40 10)
every-QueuesAreValid_example =
    every-QueuesAreValid fresh_queue 2 5 30 20 100 7 storage fresh_queue-QueuesAreValid
