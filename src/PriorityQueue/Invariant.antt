-- ===== src/PriorityQueue/Invariant.antt =====
-- The invariant of a priority queue's time queues under the loops of its operations.
use mathlib.Core.Path.{subst}
use libquicr.Prelude.{
  ℕ, zero, suc, ◌-◌, sym, Bool, false, List, [], ◌∷◌, ◌++◌, All, Bool-cases, Option-cases, inl, inr,
  ltb, length, ◌≤◌, ◌+◌, length-append, arith, if◌then◌else◌,
}
use libquicr.Cache.Map.{lookup}
use libquicr.TimeQueue.{
  TimeQueue, Element, new as new_timed, empty as empty_timed, clear as clear_timed,
}
use libquicr.TimeQueue.Invariant.{IsValid, pop-IsValid}
use libquicr.PriorityQueue.Choice.{if_true, if_false}
use libquicr.PriorityQueue.{
  Groups, PriorityQueue, add_free, init_free, groups_of, put, visit_groups, visit_queues,
  remove_group, remove_groups, remove_all, visit, pop_groups, pop_queues, pop,
}
use libquicr.PriorityQueue.Each.{
  Each, Each-assign, Each-erase, lookup_each, OnOk, OnOk-bind, OnOk-intro,
}
use libquicr.Cache.Keys.{IsSorted, assign-IsSorted, erase-IsSorted, IsSorted-keys}
use libquicr.PriorityQueue.Keys.{
  IsIdle, new-IsIdle, clear-IsIdle, keys-visit_groups, keys-visit_queues, keys-pop_groups,
  keys-pop_queues,
}

module _ {A : Type 0} where
  abbrev pub GroupsAreValid : Groups A → Type 0
  GroupsAreValid groups = IsSorted groups × Each IsValid groups

  -- Both maps are sorted, the time queues in them keep their invariant, and the free time queues, of
  -- which there are at most ten, do so and hold no entries.
  pub record QueuesAreValid (q : PriorityQueue A) : Type 0 where
    pub sorted : IsSorted q.queues
    pub in_use : Each GroupsAreValid q.queues
    pub free : All IsIdle q.free
    pub few : length q.free ≤ 10

  All-append : (xs ys : List (TimeQueue A)) → All IsIdle xs → All IsIdle ys → All IsIdle (xs ++ ys)
  All-append [] ys h k = k
  All-append (x ∷ xs) ys (p, h) k = (p, All-append xs ys h k)

  pub groups_of-GroupsAreValid :
      (p : ℕ) (q : PriorityQueue A) → QueuesAreValid q → GroupsAreValid (groups_of p q)
  groups_of-GroupsAreValid p q v = elim (Option-cases (lookup p q.queues)) [
    | inl n ↦ rw n (tt, tt)
    | inr (groups, s) ↦ rw s (lookup_each GroupsAreValid p q.queues groups v.in_use s)
  ]

  pub put-QueuesAreValid :
      (p g : ℕ) (t : TimeQueue A) (q : PriorityQueue A)
      → IsValid t
      → QueuesAreValid q
      → QueuesAreValid (put p g t q)
  put-QueuesAreValid p g t q h v =
      let (sorted, valid) = groups_of-GroupsAreValid p q v in
      record {
        sorted = assign-IsSorted p _ q.queues v.sorted;
        in_use =
            Each-assign GroupsAreValid p _ q.queues
              (
                assign-IsSorted g t (groups_of p q) sorted,
                Each-assign IsValid g t (groups_of p q) h valid,
              )
              v.in_use;
        free = v.free;
        few = v.few;
      }

  -- The free time queues when one that is idle is added to fewer than ten.
  more_free :
      (t : TimeQueue A) (ts : List (TimeQueue A))
      → IsIdle t
      → All IsIdle ts
      → length ts ≤ 10
      → (let more = if ltb (length ts) 10 then ts ++ (t ∷ []) else ts in
          All IsIdle more × (length more ≤ 10))
  more_free t ts idle h few = elim (Bool-cases (ltb (length ts) 10)) [
    | inl fewer ↦
        rw fewer
          (All-append ts (t ∷ []) h (idle, tt), ground (arith, fewer, length-append ts (t ∷ [])))
    | inr full ↦ rw full (h, few)
  ]

  remove_group-QueuesAreValid :
      (p g : ℕ) (q : PriorityQueue A) → QueuesAreValid q → QueuesAreValid (remove_group p g q)
  unfolding remove_group
  remove_group-QueuesAreValid p g q v = elim (Option-cases (lookup g (groups_of p q))) [
    | inl n ↦ rw (remove_group, n) v
    | inr (t, s) ↦
        let (sorted, valid) = groups_of-GroupsAreValid p q v in
        let cleared = clear-IsIdle t (lookup_each IsValid g (groups_of p q) t valid s) in
        let (free, few) = more_free (clear_timed t) q.free cleared v.free v.few in
        rw (remove_group, s)
          (record {
            sorted = assign-IsSorted p _ q.queues v.sorted;
            in_use =
                Each-assign GroupsAreValid p _ q.queues
                  (
                    erase-IsSorted g (groups_of p q) sorted,
                    Each-erase IsValid g (groups_of p q) valid,
                  )
                  v.in_use;
            free = free;
            few = few;
          })
  ]

  remove_groups-QueuesAreValid :
      (p : ℕ) (gs : List ℕ) (q : PriorityQueue A)
      → QueuesAreValid q
      → QueuesAreValid (remove_groups p gs q)
  remove_groups-QueuesAreValid p [] q v = v
  remove_groups-QueuesAreValid p (g ∷ gs) q v =
      remove_groups-QueuesAreValid p gs (remove_group p g q) (remove_group-QueuesAreValid p g q v)

  remove_all-QueuesAreValid :
      (ids : List (ℕ × List ℕ)) (q : PriorityQueue A)
      → QueuesAreValid q
      → QueuesAreValid (remove_all ids q)
  remove_all-QueuesAreValid [] q v = v
  remove_all-QueuesAreValid ((p, gs) ∷ ids) q v =
      remove_all-QueuesAreValid ids (remove_groups p gs q) (remove_groups-QueuesAreValid p gs q v)

  -- A method of the time queue that keeps its invariant.
  abbrev Keeps : (Element A → TimeQueue A → TimeQueue A × Element A) → Type 0
  Keeps method = (e : Element A) (t : TimeQueue A) → IsValid t → IsValid (method e t).0

  visit_groups-Each :
      (method : Element A → TimeQueue A → TimeQueue A × Element A) (e : Element A)
      (groups : Groups A)
      → Keeps method
      → Each IsValid groups
      → Each IsValid (visit_groups method e groups).0
  visit_groups-Each method e [] keeps h = tt
  visit_groups-Each method e ((g, t) ∷ groups) keeps (p, h) =
      elim (Bool-cases (method e t).1.has_value) [
        | inl found ↦
            subst (λ (v : Groups A × Element A × List ℕ × Bool). Each IsValid v.0)
              (sym (if_true (method e t).1.has_value _ _ found)) (keeps e t p, h)
        | inr missing ↦
            subst (λ (v : Groups A × Element A × List ℕ × Bool). Each IsValid v.0)
              (sym (if_false (method e t).1.has_value _ _ missing))
              (keeps e t p, visit_groups-Each method (method e t).1 groups keeps h)
      ]

  visit_groups-GroupsAreValid :
      (method : Element A → TimeQueue A → TimeQueue A × Element A) (e : Element A)
      (groups : Groups A)
      → Keeps method
      → GroupsAreValid groups
      → GroupsAreValid (visit_groups method e groups).0
  visit_groups-GroupsAreValid method e groups keeps (s, h) = (
    IsSorted-keys _ groups (keys-visit_groups method e groups) s,
    visit_groups-Each method e groups keeps h,
  )

  visit_queues-Each :
      (method : Element A → TimeQueue A → TimeQueue A × Element A) (e : Element A)
      (queues : List (ℕ × Groups A))
      → Keeps method
      → Each GroupsAreValid queues
      → Each GroupsAreValid (visit_queues method e queues).0
  visit_queues-Each method e [] keeps h = tt
  visit_queues-Each method e ((p, groups) ∷ queues) keeps (v, h) =
      elim (Bool-cases (visit_groups method e groups).3) [
        | inl stopped ↦ rw stopped (visit_groups-GroupsAreValid method e groups keeps v, h)
        | inr on ↦ rw on (
          visit_groups-GroupsAreValid method e groups keeps v,
          visit_queues-Each method (visit_groups method e groups).1 queues keeps h,
        )
      ]

  pub visit-QueuesAreValid :
      (method : Element A → TimeQueue A → TimeQueue A × Element A) (e : Element A)
      (q : PriorityQueue A)
      → Keeps method
      → QueuesAreValid q
      → QueuesAreValid (visit method e q).0
  visit-QueuesAreValid method e q keeps v =
      let elem = record e { has_value = false; expired_count = 0 } in
      let w = visit_queues method elem q.queues in
      remove_all-QueuesAreValid w.2 (record q { queues = w.0 })
        (record {
          sorted = IsSorted-keys _ q.queues (keys-visit_queues method elem q.queues) v.sorted;
          in_use = visit_queues-Each method elem q.queues keeps v.in_use;
          free = v.free;
          few = v.few;
        })

  pop_groups-Each : (groups : Groups A) → Each IsValid groups → Each IsValid (pop_groups groups).0
  pop_groups-Each [] h = tt
  pop_groups-Each ((g, t) ∷ groups) (p, h) = elim (Bool-cases (empty_timed t)) [
    | inl e ↦ rw e (p, pop_groups-Each groups h)
    | inr f ↦ rw f (pop-IsValid t p, h)
  ]

  pop_groups-GroupsAreValid :
      (groups : Groups A) → GroupsAreValid groups → GroupsAreValid (pop_groups groups).0
  pop_groups-GroupsAreValid groups (s, h) =
      (IsSorted-keys _ groups (keys-pop_groups groups) s, pop_groups-Each groups h)

  pop_queues-Each :
      (ids : List (ℕ × List ℕ)) (queues : List (ℕ × Groups A))
      → Each GroupsAreValid queues
      → Each GroupsAreValid (pop_queues ids queues).0
  pop_queues-Each ids [] h = tt
  pop_queues-Each ids ((p, groups) ∷ queues) (v, h) = elim (Bool-cases (pop_groups groups).2) [
    | inl stopped ↦ rw stopped (pop_groups-GroupsAreValid groups v, h)
    | inr on ↦ rw on (
      pop_groups-GroupsAreValid groups v,
      pop_queues-Each ((p, (pop_groups groups).1) ∷ []) queues h,
    )
  ]

  pub pop-QueuesAreValid : (q : PriorityQueue A) → QueuesAreValid q → QueuesAreValid (pop q)
  unfolding pop
  pop-QueuesAreValid q v =
      let w = pop_queues [] q.queues in
      remove_all-QueuesAreValid w.1 (record q { queues = w.0 })
        (record {
          sorted = IsSorted-keys _ q.queues (keys-pop_queues [] q.queues) v.sorted;
          in_use = pop_queues-Each [] q.queues v.in_use;
          free = v.free;
          few = v.few;
        })

  add_free-QueuesAreValid :
      (n : ℕ) (q : PriorityQueue A)
      → length q.free + n ≤ 10
      → QueuesAreValid q
      → OnOk QueuesAreValid (add_free n q)
  add_free-QueuesAreValid zero q room v = v
  add_free-QueuesAreValid (suc n) q room v =
      OnOk-bind IsIdle QueuesAreValid (new_timed q.duration q.interval) _
        (OnOk-intro IsIdle (new_timed q.duration q.interval) (λ t e. new-IsIdle _ _ t e))
        (λ t h.
          add_free-QueuesAreValid n _ (omega (arith, room, length-append q.free (t ∷ []))) (record {
            sorted = v.sorted;
            in_use = v.in_use;
            free = All-append q.free (t ∷ []) v.free (h, tt);
            few = omega (arith, room, length-append q.free (t ∷ []));
          }))

  pub init_free-QueuesAreValid :
      (q : PriorityQueue A) → QueuesAreValid q → OnOk QueuesAreValid (init_free q)
  unfolding init_free
  init_free-QueuesAreValid q v =
      add_free-QueuesAreValid (2 - length q.free) q (let few = v.few in omega arith) v
