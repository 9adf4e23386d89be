-- ===== src/SafeQueue/Tests.antt =====
-- Concrete queues, and the theorems at them.
use libquicr.Prelude.{ℕ, ◌≡◌, refl, false, none, List, [], ◌∷◌, arith}
use libquicr.SafeQueue.{Call, push_call, pop_call, new, run, step, push, block_pop, is_empty}
use libquicr.SafeQueue.Flag.{FlagIsRight, run-FlagIsRight}
use libquicr.SafeQueue.Window.{push_all, push_all-new}

slides : (push_all {A = ℕ} (1 ∷ 2 ∷ 3 ∷ []) (new 2)).queue ≡ 2 ∷ 3 ∷ []
unfolding push_all push
slides = refl

waits : block_pop (new {A = ℕ} 2) ≡ none
unfolding block_pop
waits = refl

push_all-new_example : (push_all {A = ℕ} (1 ∷ 2 ∷ 3 ∷ []) (new 2)).queue ≡ 2 ∷ 3 ∷ []
push_all-new_example = push_all-new (1 ∷ 2 ∷ 3 ∷ []) 2 (omega arith)

abbrev calls : List (Call ℕ)
calls = push_call 1 ∷ push_call 2 ∷ pop_call ∷ []

run-FlagIsRight_example : FlagIsRight (run calls (new 5))
run-FlagIsRight_example = run-FlagIsRight calls 5 ((λ e. cc), ((λ e. cc), ((λ e. cc), tt)))

one_left : is_empty (run calls (new 5)).queue ≡ false
unfolding run step
one_left = refl
