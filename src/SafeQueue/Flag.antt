-- ===== src/SafeQueue/Flag.antt =====
-- `Empty()` reads a flag that the methods keep beside the queue.
use libquicr.Prelude.{ℕ, ◌≡◌, ◌≢◌, refl, ◌∙◌, true, false, List, [], ◌∷◌, ◌++◌, arith, All}
use libquicr.SafeQueue.{
  SafeQueue, Call, push_call, pop_call, pop_front_call, block_pop_call, stop_waiting_call,
  set_limit_call, clear_call, new, step, run, clear, empty, is_empty, push_from, pop_from,
  pop_front_from, block_pop, after, stop_waiting, set_limit,
}

module _ {A : Type 0} where
  -- `Empty()` says whether the queue is empty.
  abbrev pub FlagIsRight : SafeQueue A → Type 0
  FlagIsRight q = empty q ≡ is_empty q.queue

  abbrev pub IsNotClear : Call A → Type 0
  IsNotClear c = c ≢ clear_call

  is_empty-push : (xs : List A) (x : A) → is_empty (xs ++ (x ∷ [])) ≡ false
  is_empty-push [] x = refl
  is_empty-push (y ∷ xs) x = refl

  push_from-FlagIsRight :
      (xs : List A) (x : A) (q : SafeQueue A)
      → q.queue ≡ xs
      → FlagIsRight q
      → FlagIsRight (push_from xs x q).0
  unfolding push_from
  push_from-FlagIsRight [] x q e h = refl
  push_from-FlagIsRight (y ∷ xs) x q e h = ground (arith, is_empty-push xs x)

  pop_from-FlagIsRight :
      (xs : List A) (q : SafeQueue A) → q.queue ≡ xs → FlagIsRight q → FlagIsRight (pop_from xs q).0
  unfolding pop_from
  pop_from-FlagIsRight [] q e h = rw e
  pop_from-FlagIsRight (x ∷ []) q e h = refl
  pop_from-FlagIsRight (x ∷ y ∷ xs) q e h = h ∙ rw e

  pop_front_from-FlagIsRight :
      (xs : List A) (q : SafeQueue A)
      → q.queue ≡ xs
      → FlagIsRight q
      → FlagIsRight (pop_front_from xs q)
  unfolding pop_front_from
  pop_front_from-FlagIsRight [] q e h = rw e
  pop_front_from-FlagIsRight (x ∷ []) q e h = refl
  pop_front_from-FlagIsRight (x ∷ y ∷ xs) q e h = h ∙ rw e

  block_pop-FlagIsRight : (q : SafeQueue A) → FlagIsRight q → FlagIsRight (after (block_pop q) q)
  unfolding block_pop
  block_pop-FlagIsRight q h = ground (arith, pop_from-FlagIsRight q.queue q refl h)

  step-FlagIsRight :
      (c : Call A) (q : SafeQueue A) → IsNotClear c → FlagIsRight q → FlagIsRight (step c q)
  unfolding step stop_waiting set_limit
  step-FlagIsRight (push_call x) q n h = push_from-FlagIsRight q.queue x q refl h
  step-FlagIsRight pop_call q n h = pop_from-FlagIsRight q.queue q refl h
  step-FlagIsRight pop_front_call q n h = pop_front_from-FlagIsRight q.queue q refl h
  step-FlagIsRight block_pop_call q n h = block_pop-FlagIsRight q h
  step-FlagIsRight stop_waiting_call q n h = h
  step-FlagIsRight (set_limit_call k) q n h = h
  step-FlagIsRight clear_call q n h = absurd (n refl)

  run_from-FlagIsRight :
      (cs : List (Call A)) (q : SafeQueue A)
      → All IsNotClear cs
      → FlagIsRight q
      → FlagIsRight (run cs q)
  unfolding run
  run_from-FlagIsRight [] q n h = h
  run_from-FlagIsRight (c ∷ cs) q n h =
      run_from-FlagIsRight cs (step c q) n.1 (step-FlagIsRight c q n.0 h)

  -- After any calls but `Clear()`, in any order and from any threads, `Empty()` says whether the queue
  -- is empty.
  pub run-FlagIsRight :
      (cs : List (Call A)) (limit : ℕ) → All IsNotClear cs → FlagIsRight (run cs (new limit))
  run-FlagIsRight cs limit n = run_from-FlagIsRight cs (new limit) n refl

  -- `Clear()` leaves the flag: cleared of at least one element, the queue is empty and `Empty()` is false.
  pub clear-empty :
      (cs : List (Call A)) (limit : ℕ)
      → All IsNotClear cs
      → is_empty (run cs (new limit)).queue ≡ false
      → (is_empty (clear (run cs (new limit))).queue ≡ true)
        × (empty (clear (run cs (new limit))) ≡ false)
  unfolding clear
  clear-empty cs limit n full = (refl, run-FlagIsRight cs limit n ∙ full)
