-- ===== src/Cache/Tests.antt =====
-- Runs of a cache of 4 buckets of 10 milliseconds.
use libquicr.Prelude.{ℕ, suc, ◌≡◌, refl, arith, false, none, some, List, [], ◌∷◌, ok, zero, ◌+◌}
use libquicr.Cache.{Cache, new, advance, delta_ticks, store, insert, contains, get}
use libquicr.Cache.Invariant.{in_bucket, IsValid}
use libquicr.Cache.Lifetime.{get-insert, get-insert_later, poll, poll_keeps}
use libquicr.Cache.Runs.{
  Op, insert_op, contains_op, get_op, contains_range_op, get_range_op, first_op, last_op, clear_op,
  run, run-IsValid_of_new,
}

abbrev fresh_cache : Cache ℕ
fresh_cache = record {
  duration = 40;
  interval = 10;
  total_buckets = 4;
  bucket_index = 0;
  current_ticks = 0;
  buckets = [] ∷ [] ∷ [] ∷ [] ∷ [];
  cache = [];
}

new_40_10 : new 40 10 ≡ ok fresh_cache
unfolding new
new_40_10 = refl

abbrev one_cached : Cache ℕ
one_cached = record fresh_cache {
  current_ticks = 100;
  buckets = [] ∷ (5 ∷ []) ∷ [] ∷ [] ∷ [];
  cache = (5, 7) ∷ [];
}

insert_at_100 : insert 5 7 20 100 fresh_cache ≡ ok one_cached
unfolding insert store advance delta_ticks
insert_at_100 = refl

no_bucket : (j : ℕ) → in_bucket 5 j (advance 100 fresh_cache).buckets ≡ false
unfolding advance delta_ticks
no_bucket zero = refl
no_bucket (suc zero) = refl
no_bucket (suc (suc zero)) = refl
no_bucket (suc (suc (suc zero))) = refl
no_bucket (suc (suc (suc (suc j)))) = refl

get-insert_example : (get 5 100 one_cached).1 ≡ some 7
get-insert_example = get-insert 5 5 7 20 100 fresh_cache one_cached (omega arith) insert_at_100

get-insert_later_example : (get 5 (100 + 19) one_cached).1 ≡ some 7
get-insert_later_example =
    get-insert_later 5 7 20 100 19 fresh_cache one_cached
      (run-IsValid_of_new 40 10 fresh_cache [] new_40_10) (omega arith) (omega arith) (omega arith)
      (omega arith) no_bucket insert_at_100

poll_keeps_example : (poll 5 (105 ∷ 114 ∷ 123 ∷ 132 ∷ []) one_cached).cache ≡ (5, 7) ∷ []
poll_keeps_example = poll_keeps 5 (105 ∷ 114 ∷ 123 ∷ 132 ∷ []) one_cached (omega arith) (
  omega arith,
  omega arith,
  omega arith,
  (
    omega arith,
    omega arith,
    omega arith,
    (omega arith, omega arith, omega arith, (omega arith, omega arith, omega arith, tt)),
  ),
)

abbrev ops : List (Op ℕ)
ops =
    insert_op 5 7 20 100
    ∷ insert_op 6 8 0 105
    ∷ get_op 5 118
    ∷ contains_op 6 119
    ∷ get_range_op 5 6 120
    ∷ contains_range_op 5 6 121
    ∷ first_op 122
    ∷ last_op 123
    ∷ clear_op
    ∷ []

run-IsValid_of_new_example : IsValid (run ops fresh_cache)
run-IsValid_of_new_example = run-IsValid_of_new 40 10 fresh_cache ops new_40_10

-- A key that is inserted again is erased when its first insertion ends.
erased_by_the_first :
    (get 5 121 (run (insert_op 5 7 20 100 ∷ insert_op 5 8 40 101 ∷ []) fresh_cache)).1 ≡ none
unfolding get contains insert store advance delta_ticks
erased_by_the_first = refl
