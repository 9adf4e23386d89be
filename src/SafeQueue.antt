-- ===== src/SafeQueue.antt =====
-- include/quicr/detail/safe_queue.h: a bounded queue between threads.
-- Every method holds `mutex_` for its whole body, so a method is one step. Where `BlockPop` waits it
-- is no step yet: `none` stands for a thread that stays at `cv_.wait`.
pub mod Flag
pub mod Window
mod Tests
use libquicr.Prelude.{
  ℕ, suc, ◌+◌, Bool, true, false, ◌||◌, Option, none, some, List, [], ◌∷◌, ◌++◌, leb, if◌then◌else◌,
  length,
}

pub record SafeQueue (A : Type 0) : Type 0 where
  pub empty_flag : Bool  -- `empty_`
  pub stop_waiting : Bool
  pub limit : ℕ
  pub queue : List A

-- One call, with what it is given.
pub data Call (A : Type 0) : Type 0 where
  push_call : A → Call A
  pop_call pop_front_call block_pop_call stop_waiting_call : Call A
  set_limit_call : ℕ → Call A
  clear_call : Call A

module _ {A : Type 0} where
  -- The constructor.
  abbrev pub new : ℕ → SafeQueue A
  new limit = record { empty_flag = true; stop_waiting = false; limit = limit; queue = [] }

  push_from : List A → A → SafeQueue A → SafeQueue A × Bool
  push_from [] elem q = (record q { empty_flag = false; queue = elem ∷ [] }, true)
  push_from (x ∷ xs) elem q =
      if leb q.limit (length (x ∷ xs))
      then (record q { queue = xs ++ (elem ∷ []) }, false)
      else (record q { queue = (x ∷ xs) ++ (elem ∷ []) }, true)

  unfoldable pub push : A → SafeQueue A → SafeQueue A × Bool
  unfolding push_from
  push elem q = push_from q.queue elem q

  pop_from : List A → SafeQueue A → SafeQueue A × Option A
  pop_from [] q = (record q { empty_flag = true }, none)
  pop_from (x ∷ []) q = (record q { empty_flag = true; queue = [] }, some x)
  pop_from (x ∷ y ∷ xs) q = (record q { queue = y ∷ xs }, some x)

  -- `Pop()` and `PopInternal()`
  unfoldable pub pop : SafeQueue A → SafeQueue A × Option A
  unfolding pop_from
  pop q = pop_from q.queue q

  unfoldable pub front : SafeQueue A → Option A
  front q = elim q.queue [ [] ↦ none | x ∷ xs ↦ some x ]

  pop_front_from : List A → SafeQueue A → SafeQueue A
  pop_front_from [] q = record q { empty_flag = true }
  pop_front_from (x ∷ []) q = record q { empty_flag = true; queue = [] }
  pop_front_from (x ∷ y ∷ xs) q = record q { queue = y ∷ xs }

  unfoldable pub pop_front : SafeQueue A → SafeQueue A
  unfolding pop_front_from
  pop_front q = pop_front_from q.queue q

  abbrev is_empty : List A → Bool
  is_empty [] = true
  is_empty (x ∷ xs) = false

  -- `BlockPop()`: the thread goes on once it may stop waiting or there is an element.
  unfoldable pub block_pop : SafeQueue A → Option (SafeQueue A × Option A)
  unfolding pop
  block_pop q =
      if q.stop_waiting then some (q, none) else if is_empty q.queue then none else some (pop q)

  abbrev pub size : SafeQueue A → ℕ
  size q = length q.queue

  unfoldable pub clear : SafeQueue A → SafeQueue A
  clear q = record q { queue = [] }

  abbrev pub empty : SafeQueue A → Bool
  empty q = q.empty_flag

  unfoldable pub stop_waiting : SafeQueue A → SafeQueue A
  stop_waiting q = record q { stop_waiting = true }

  unfoldable pub set_limit : ℕ → SafeQueue A → SafeQueue A
  set_limit limit q = record q { limit = limit }

  abbrev after : Option (SafeQueue A × Option A) → SafeQueue A → SafeQueue A
  after none q = q
  after (some (q', r)) q = q'

  -- The queue after a call; a call that waits has not changed it.
  unfoldable pub step : Call A → SafeQueue A → SafeQueue A
  unfolding push pop pop_front block_pop clear stop_waiting set_limit
  step (push_call elem) q = (push elem q).0
  step pop_call q = (pop q).0
  step pop_front_call q = pop_front q
  step block_pop_call q = after (block_pop q) q
  step stop_waiting_call q = stop_waiting q
  step (set_limit_call n) q = set_limit n q
  step clear_call q = clear q

  unfoldable pub run : List (Call A) → SafeQueue A → SafeQueue A
  run [] q = q
  run (c ∷ cs) q = run cs (step c q)
