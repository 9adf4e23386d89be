-- ===== src/PriorityQueue/Operations.antt =====
-- The invariant of a priority queue's time queues under its operations.
use mathlib.Core.Path.{subst}
use libquicr.Prelude.{
  ℕ, ◌≡◌, refl, Option, none, some, List, [], ◌∷◌, All, Outcome, ok, throws, undefined, unfinished,
  ◌>>=◌, length, ◌≤◌, suc, arith,
}
use libquicr.Cache.Map.{lookup}
use libquicr.TimeQueue.{TimeQueue, Element, new as new_timed, push as push_timed}
use libquicr.TimeQueue.Invariant.{IsValid, new-IsValid, front-IsValid, pop_front-IsValid}
use libquicr.TimeQueue.Runs.{kept, push-IsValid}
use libquicr.PriorityQueue.{
  PriorityQueue, init_free, new, groups_of, put, take_back, add_group, get_queue, pushed, push,
  front, pop_front, pop, clear,
}
use libquicr.PriorityQueue.Each.{lookup_each, OnOk, OnOk-bind, OnOk-intro}
use libquicr.PriorityQueue.Invariant.{
  QueuesAreValid, groups_of-GroupsAreValid, put-QueuesAreValid, visit-QueuesAreValid,
  pop-QueuesAreValid, init_free-QueuesAreValid,
}
use libquicr.PriorityQueue.Keys.{IsIdle}

new_timed-IsValid : (A : Type 0) (d i : ℕ) → OnOk IsValid (new_timed {A = A} d i)
new_timed-IsValid A d i = OnOk-intro IsValid (new_timed d i) (λ t e. new-IsValid d i t e)

module _ {A : Type 0} where
  -- What is taken off the back of `n` free time queues.
  abbrev TakenIsValid : ℕ → Option (List (TimeQueue A) × TimeQueue A) → Type 0
  TakenIsValid n none = Unit
  TakenIsValid n (some r) = All IsIdle r.0 × IsIdle r.1 × (length r.0 ≤ n)

  TakenIsValid-cons :
      (n : ℕ) (t : TimeQueue A) (o : Option (List (TimeQueue A) × TimeQueue A))
      → IsIdle t
      → TakenIsValid n o
      → TakenIsValid (suc n) (elim o [ none ↦ none | some r ↦ some (t ∷ r.0, r.1) ])
  TakenIsValid-cons n t none h k = tt
  TakenIsValid-cons n t (some r) h k = ((h, k.0), k.1, omega (arith, k.2))

  take_back-TakenIsValid :
      (ts : List (TimeQueue A)) → All IsIdle ts → TakenIsValid (length ts) (take_back ts)
  take_back-TakenIsValid [] h = tt
  take_back-TakenIsValid (t ∷ []) h = (tt, h.0, omega arith)
  take_back-TakenIsValid (t ∷ u ∷ ts) h =
      TakenIsValid-cons _ t (take_back (u ∷ ts)) h.0 (take_back-TakenIsValid (u ∷ ts) h.1)

  abbrev Got : PriorityQueue A × TimeQueue A → Type 0
  Got r = QueuesAreValid r.0 × IsValid r.1

  add_group_from :
      (p g : ℕ) (q : PriorityQueue A) (o : Option (List (TimeQueue A) × TimeQueue A))
      → QueuesAreValid q
      → TakenIsValid (length q.free) o
      → OnOk Got (elim o [
        | none ↦
            new_timed q.duration q.interval
            >>= (λ t. init_free (put p g t q) >>= (λ q'. ok (q', t)))
        | some r ↦ ok (put p g r.1 (record q { free = r.0 }), r.1)
      ])
  add_group_from p g q none v h =
      OnOk-bind IsValid Got (new_timed q.duration q.interval) _
        (new_timed-IsValid A q.duration q.interval)
        (λ t valid.
          OnOk-bind QueuesAreValid Got (init_free (put p g t q)) _
            (init_free-QueuesAreValid (put p g t q) (put-QueuesAreValid p g t q valid v))
            (λ q' v'. (v', valid)))
  add_group_from p g q (some r) v h = (
    put-QueuesAreValid p g r.1 (record q { free = r.0 }) h.1.0
        (record {
          sorted = v.sorted;
          in_use = v.in_use;
          free = h.0;
          few = (let few = v.few in let fewer = h.2 in omega arith);
        }),
    h.1.0,
  )

  get_queue_from :
      (p g : ℕ) (q : PriorityQueue A) (o : Option (TimeQueue A))
      → QueuesAreValid q
      → lookup g (groups_of p q) ≡ o
      → OnOk Got (elim o [ none ↦ add_group p g q | some t ↦ ok (q, t) ])
  unfolding add_group
  get_queue_from p g q none v e =
      add_group_from p g q (take_back q.free) v (take_back-TakenIsValid q.free v.free)
  get_queue_from p g q (some t) v e =
      (v, lookup_each IsValid g (groups_of p q) t (groups_of-GroupsAreValid p q v).1 e)

  get_queue-Got : (p g : ℕ) (q : PriorityQueue A) → QueuesAreValid q → OnOk Got (get_queue p g q)
  unfolding get_queue
  get_queue-Got p g q v = get_queue_from p g q (lookup g (groups_of p q)) v refl

  pushed-QueuesAreValid :
      (p g : ℕ) (q : PriorityQueue A) (r : Outcome (TimeQueue A))
      → QueuesAreValid q
      → OnOk IsValid r
      → OnOk (λ r. QueuesAreValid r.0) (pushed p g q r)
  pushed-QueuesAreValid p g q (ok t) v h = put-QueuesAreValid p g t q h v
  pushed-QueuesAreValid p g q (throws e) v h = v
  pushed-QueuesAreValid p g q undefined v h = tt
  pushed-QueuesAreValid p g q unfinished v h = tt

  push-QueuesAreValid :
      (g : ℕ) (value : A) (ttl p delay_ttl now : ℕ) (q : PriorityQueue A)
      → QueuesAreValid q
      → OnOk (λ r. QueuesAreValid r.0) (push g value ttl p delay_ttl now q)
  unfolding push
  push-QueuesAreValid g value ttl p delay_ttl now q v =
      OnOk-bind Got (λ r. QueuesAreValid r.0) (get_queue p g q) _ (get_queue-Got p g q v)
        (λ r h. pushed-QueuesAreValid p g r.0 _ h.0 (
          OnOk-intro IsValid (push_timed value ttl delay_ttl now r.1) (λ t e.
            subst (λ o. IsValid (kept r.1 o)) e (push-IsValid value ttl delay_ttl now r.1 h.1))))

  clear-QueuesAreValid : (q : PriorityQueue A) → QueuesAreValid q → OnOk QueuesAreValid (clear q)
  unfolding clear
  clear-QueuesAreValid q v =
      init_free-QueuesAreValid (record q { queues = [] })
        (record { sorted = tt; in_use = tt; free = v.free; few = v.few })

  -- The maps of a priority queue are sorted by their keys, its time queues keep their invariant, and the
  -- free ones, at most ten, hold no entries that another group could get: what the constructor makes is
  -- so, and if a queue is so, it is after every operation that returns.
  pub every-QueuesAreValid :
      (q : PriorityQueue A) (group priority ttl delay_ttl now : ℕ) (value : A) (elem : Element A)
      → QueuesAreValid q
      → OnOk (λ r. QueuesAreValid r.0) (push group value ttl priority delay_ttl now q)
        × QueuesAreValid (front now elem q).0
        × QueuesAreValid (pop_front now elem q).0
        × QueuesAreValid (pop q)
        × OnOk QueuesAreValid (clear q)
        × OnOk QueuesAreValid (new {A = A} q.duration q.interval)
  unfolding front pop_front new
  every-QueuesAreValid q group priority ttl delay_ttl now value elem v = (
    push-QueuesAreValid group value ttl priority delay_ttl now q v,
    visit-QueuesAreValid _ elem q (λ e t h. front-IsValid now e t h) v,
    visit-QueuesAreValid _ elem q (λ e t h. pop_front-IsValid now e t h) v,
    pop-QueuesAreValid q v,
    clear-QueuesAreValid q v,
    init_free-QueuesAreValid _ (record { sorted = tt; in_use = tt; free = tt; few = omega arith }),
  )
