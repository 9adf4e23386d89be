-- ===== src/TimeQueue/Runs.antt =====
-- Sequences of a time queue's operations.

use libquicr.Prelude.{ℕ, ◌≡◌, List, [], ◌∷◌, ltb, Bool-cases, inl, inr, Outcome, ok}
use libquicr.TimeQueue.{TimeQueue, Element, new, clear, push, front, pop, pop_front}
use libquicr.TimeQueue.Invariant.{
  IsValid, new-IsValid, clear-IsValid, enqueue-IsValid, advance-IsValid, front-IsValid, pop-IsValid,
  pop_front-IsValid,
}

-- What a program does with a queue.
pub data Op (A : Type 0) : Type 0 where
  push_op : A → ℕ → ℕ → ℕ → Op A
  front_op pop_front_op : ℕ → Element A → Op A
  pop_op clear_op : Op A

module _ {A : Type 0} where
  -- A push that throws has changed nothing.
  abbrev pub kept : TimeQueue A → Outcome (TimeQueue A) → TimeQueue A
  kept q (ok q') = q'
  kept q _ = q

  abbrev pub perform : Op A → TimeQueue A → TimeQueue A
  perform (push_op value ttl delay_ttl now) q = kept q (push value ttl delay_ttl now q)
  perform (front_op now elem) q = (front now elem q).0
  perform (pop_front_op now elem) q = (pop_front now elem q).0
  perform pop_op q = pop q
  perform clear_op q = clear q

  abbrev pub run : List (Op A) → TimeQueue A → TimeQueue A
  run [] q = q
  run (op ∷ ops) q = run ops (perform op q)

  pub push-IsValid :
      (value : A) (ttl delay_ttl now : ℕ) (q : TimeQueue A)
      → IsValid q
      → IsValid (kept q (push value ttl delay_ttl now q))
  unfolding push
  push-IsValid value ttl delay_ttl now q v = elim (Bool-cases (ltb q.duration ttl)) [
    | inl t ↦ rw t v
    | inr f ↦ rw f (enqueue-IsValid _ _ _ _ _ (advance-IsValid now q v))
  ]

  perform-IsValid : (op : Op A) (q : TimeQueue A) → IsValid q → IsValid (perform op q)
  perform-IsValid (push_op value ttl delay_ttl now) q v = push-IsValid value ttl delay_ttl now q v
  perform-IsValid (front_op now elem) q v = front-IsValid now elem q v
  perform-IsValid (pop_front_op now elem) q v = pop_front-IsValid now elem q v
  perform-IsValid pop_op q v = pop-IsValid q v
  perform-IsValid clear_op q v = clear-IsValid q v

  run-IsValid_from : (ops : List (Op A)) (q : TimeQueue A) → IsValid q → IsValid (run ops q)
  run-IsValid_from [] q v = v
  run-IsValid_from (op ∷ ops) q v = run-IsValid_from ops (perform op q) (perform-IsValid op q v)

  -- A queue that the constructor accepts stays valid under every sequence of pushes, reads, pops and
  -- clears, at whatever times.
  pub run-IsValid :
      (duration interval : ℕ) (q : TimeQueue A) (ops : List (Op A))
      → new duration interval ≡ ok q
      → IsValid (run ops q)
  run-IsValid duration interval q ops h = run-IsValid_from ops q (new-IsValid duration interval q h)
