-- ===== src/PriorityQueue.antt =====
-- include/quicr/detail/priority_queue.h: time queues by priority and group.
-- Every method holds `mutex_` for its whole body, so a method is one step; `now` is what the tick
-- service reports in it. Both maps are lists sorted by key. A time queue is shared by nothing else
-- while it is in the map, and by the list of free ones alone after that.
pub mod Choice
pub mod Each
pub mod Invariant
pub mod Keys
pub mod Order
pub mod Operations
mod Tests
use libquicr.Prelude.{
  ℕ, zero, suc, ◌+◌, ◌-◌, Bool, true, false, ◌||◌, ◌&&◌, not, Option, none, some, List, [], ◌∷◌,
  ◌++◌, Outcome, ok, throws, undefined, unfinished, Exception, ◌>>=◌, ltb, ◌==◌, if◌then◌else◌,
  length, is_nil,
}
use libquicr.Cache.Map.{lookup, assign, erase}
use libquicr.TimeQueue.{
  TimeQueue, Element, new as new_timed, push as push_timed, front as front_timed, pop as pop_timed,
  pop_front as pop_front_timed, clear as clear_timed, empty as empty_timed,
}

abbrev pub Groups : Type 0 → Type 0
Groups A = List (ℕ × TimeQueue A)

pub record PriorityQueue (A : Type 0) : Type 0 where
  pub duration : ℕ
  pub interval : ℕ
  pub queues : List (ℕ × Groups A)
  pub free : List (TimeQueue A)

abbrev pub min_free : ℕ
min_free = 2

abbrev pub max_free : ℕ
max_free = 10

module _ {A : Type 0} where
  abbrev pub add_free : ℕ → PriorityQueue A → Outcome (PriorityQueue A)
  add_free zero q = ok q
  add_free (suc n) q =
      new_timed q.duration q.interval >>= (λ t. add_free n (record q { free = q.free ++ (t ∷ []) }))

  -- `InitFreeTimeQueues`
  unfoldable pub init_free : PriorityQueue A → Outcome (PriorityQueue A)
  init_free q = add_free (min_free - length q.free) q

  -- The constructor, with a tick service.
  unfoldable pub new : ℕ → ℕ → Outcome (PriorityQueue A)
  new duration interval =
      init_free (record { duration = duration; interval = interval; queues = []; free = [] })

  abbrev or_nil : Option (Groups A) → Groups A
  or_nil none = []
  or_nil (some groups) = groups

  -- `queues_[priority]`
  abbrev pub groups_of : ℕ → PriorityQueue A → Groups A
  groups_of priority q = or_nil (lookup priority q.queues)

  abbrev pub put : ℕ → ℕ → TimeQueue A → PriorityQueue A → PriorityQueue A
  put priority group t q = record q {
    queues = assign priority (assign group t (groups_of priority q)) q.queues;
  }

  -- `free_tqueues_.back()` and what `pop_back` leaves.
  abbrev pub take_back : List (TimeQueue A) → Option (List (TimeQueue A) × TimeQueue A)
  take_back [] = none
  take_back (t ∷ []) = some ([], t)
  take_back (t ∷ u ∷ ts) = elim (take_back (u ∷ ts)) [ none ↦ none | some r ↦ some (t ∷ r.0, r.1) ]

  -- `GetQueueByPriorityGroupId` for a group that is not there.
  unfoldable pub add_group : ℕ → ℕ → PriorityQueue A → Outcome (PriorityQueue A × TimeQueue A)
  add_group priority group q = elim (take_back q.free) [
    | none ↦
        new_timed q.duration q.interval
        >>= (λ t. init_free (put priority group t q) >>= (λ q'. ok (q', t)))
    | some r ↦ ok (put priority group r.1 (record q { free = r.0 }), r.1)
  ]

  -- `GetQueueByPriorityGroupId`
  unfoldable pub get_queue : ℕ → ℕ → PriorityQueue A → Outcome (PriorityQueue A × TimeQueue A)
  get_queue priority group q = elim (lookup group (groups_of priority q)) [
    | none ↦ add_group priority group q
    | some t ↦ ok (q, t)
  ]

  -- The queue after `Push`, and what it threw: a group that it added stays.
  abbrev pub pushed :
      ℕ → ℕ → PriorityQueue A → Outcome (TimeQueue A) → Outcome (PriorityQueue A × Option Exception)
  pushed priority group q (ok t) = ok (put priority group t q, none)
  pushed priority group q (throws e) = ok (q, some e)
  pushed priority group q undefined = undefined
  pushed priority group q unfinished = unfinished

  -- `Push(group_id, value, ttl, priority, delay_ttl)`
  unfoldable pub push :
      ℕ → A → ℕ → ℕ → ℕ → ℕ → PriorityQueue A → Outcome (PriorityQueue A × Option Exception)
  push group value ttl priority delay_ttl now q =
      get_queue priority group q
      >>= (λ r. pushed priority group r.0 (push_timed value ttl delay_ttl now r.1))

  -- One priority's loop in `Front` and `PopFront`, `method` being the time queue's: the groups, the
  -- element, the groups to remove, and whether the method returned in it.
  abbrev pub visit_groups :
      (Element A → TimeQueue A → TimeQueue A × Element A)
      → Element A
      → Groups A
      → Groups A × Element A × List ℕ × Bool
  visit_groups method elem [] = ([], elem, [], false)
  visit_groups method elem ((group, t) ∷ groups) =
      let r = method elem t in
      let rest = visit_groups method r.1 groups in
      if r.1.has_value
      then (
        (group, r.0) ∷ groups,
        r.1,
        (if empty_timed r.0 || not (r.1.expired_count == 0) then group ∷ [] else []),
        true,
      )
      else ((group, r.0) ∷ rest.0, rest.1, group ∷ rest.2, rest.3)

  abbrev pub visit_queues :
      (Element A → TimeQueue A → TimeQueue A × Element A)
      → Element A
      → List (ℕ × Groups A)
      → List (ℕ × Groups A) × Element A × List (ℕ × List ℕ)
  visit_queues method elem [] = ([], elem, [])
  visit_queues method elem ((priority, groups) ∷ queues) =
      let v = visit_groups method elem groups in
      let rest = visit_queues method v.1 queues in
      if v.3
      then ((priority, v.0) ∷ queues, v.1, (priority, v.2) ∷ [])
      else ((priority, v.0) ∷ rest.0, rest.1, (priority, v.2) ∷ rest.2)

  unfoldable pub remove_group : ℕ → ℕ → PriorityQueue A → PriorityQueue A
  remove_group priority group q = elim (lookup group (groups_of priority q)) [
    | none ↦ q
    | some t ↦ record q {
      free = if ltb (length q.free) max_free then q.free ++ (clear_timed t ∷ []) else q.free;
      queues = assign priority (erase group (groups_of priority q)) q.queues;
    }
  ]

  -- `RemoveGroupTimeQueue`, both of them.
  abbrev pub remove_groups : ℕ → List ℕ → PriorityQueue A → PriorityQueue A
  remove_groups priority [] q = q
  remove_groups priority (group ∷ groups) q =
      remove_groups priority groups (remove_group priority group q)

  abbrev pub remove_all : List (ℕ × List ℕ) → PriorityQueue A → PriorityQueue A
  remove_all [] q = q
  remove_all ((priority, groups) ∷ more) q = remove_all more (remove_groups priority groups q)

  abbrev pub visit :
      (Element A → TimeQueue A → TimeQueue A × Element A)
      → Element A
      → PriorityQueue A
      → PriorityQueue A × Element A
  visit method elem q =
      let v = visit_queues method (record elem { has_value = false; expired_count = 0 }) q.queues in
      (remove_all v.2 (record q { queues = v.0 }), v.1)

  -- `Front(elem)` and `PopFront(elem)`
  unfoldable pub front : ℕ → Element A → PriorityQueue A → PriorityQueue A × Element A
  front now elem q = visit (λ elem t. front_timed now elem t) elem q

  unfoldable pub pop_front : ℕ → Element A → PriorityQueue A → PriorityQueue A × Element A
  pop_front now elem q = visit (λ elem t. pop_front_timed now elem t) elem q

  abbrev pub pop_groups : Groups A → Groups A × List ℕ × Bool
  pop_groups [] = ([], [], false)
  pop_groups ((group, t) ∷ groups) =
      let rest = pop_groups groups in
      if empty_timed t then ((group, t) ∷ rest.0, group ∷ rest.1, rest.2) else (
        (group, pop_timed t) ∷ groups,
        (if empty_timed (pop_timed t) then group ∷ [] else []),
        true,
      )

  -- What is to be removed is cleared at each priority, so `ids` are the last one's.
  abbrev pub pop_queues :
      List (ℕ × List ℕ) → List (ℕ × Groups A) → List (ℕ × Groups A) × List (ℕ × List ℕ)
  pop_queues ids [] = ([], ids)
  pop_queues ids ((priority, groups) ∷ queues) =
      let v = pop_groups groups in
      let rest = pop_queues ((priority, v.1) ∷ []) queues in
      if v.2
      then ((priority, v.0) ∷ queues, (priority, v.1) ∷ [])
      else ((priority, v.0) ∷ rest.0, rest.1)

  -- `Pop()`
  unfoldable pub pop : PriorityQueue A → PriorityQueue A
  pop q = let v = pop_queues [] q.queues in remove_all v.1 (record q { queues = v.0 })

  unfoldable pub clear : PriorityQueue A → Outcome (PriorityQueue A)
  clear q = init_free (record q { queues = [] })

  abbrev all_empty : List (ℕ × Groups A) → Bool
  all_empty [] = true
  all_empty ((priority, groups) ∷ queues) = is_nil groups && all_empty queues

  unfoldable pub empty : PriorityQueue A → Bool
  empty q = all_empty q.queues
