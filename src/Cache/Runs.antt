-- ===== src/Cache/Runs.antt =====
-- Sequences of a cache's operations.
use mathlib.Core.Path.{subst}
use libquicr.Prelude.{
  ℕ, ◌/◌, ◌%◌, ◌<◌, ◌≡◌, refl, false, ◌||◌, not, List, [], ◌∷◌, arith, ltb, ◌==◌, replicate,
  length-replicate, Bool-cases, inl, inr, Outcome, ok, ◌>>=◌,
}
use libquicr.TimeQueue.Invariant.{quotient-pos}
use libquicr.Cache.{
  Cache, new, clear, insert, contains, contains_range, get, get_range, get_first, get_last,
}
use libquicr.Cache.Invariant.{IsValid, clear-IsValid, advance-IsValid, store-IsValid}

abbrev fresh : (A : Type 0) → ℕ → ℕ → Cache A
fresh A d i = record {
  duration = d;
  interval = i;
  total_buckets = d / i;
  bucket_index = 0;
  current_ticks = 0;
  buckets = replicate (d / i) [];
  cache = [];
}

pub data Op (A : Type 0) : Type 0 where
  insert_op : ℕ → A → ℕ → ℕ → Op A
  contains_op get_op : ℕ → ℕ → Op A
  contains_range_op get_range_op : ℕ → ℕ → ℕ → Op A
  first_op last_op : ℕ → Op A
  clear_op : Op A

module _ {A : Type 0} where
  new_ok :
      (d i : ℕ) (c : Cache A)
      → new d i ≡ ok c
      → ((i == 0) ≡ false) × (((d == 0 || not (d % i == 0)) || d == i) ≡ false) × (fresh A d i ≡ c)
  unfolding new
  new_ok d i c h = ground (arith, h)

  fresh-IsValid : (d i : ℕ) → 0 < i → 0 < d / i → IsValid (fresh A d i)
  fresh-IsValid d i n h = record {
    positive = h;
    as_made = length-replicate (d / i) [];
    index = h;
    nonzero = n;
    whole = refl;
    sorted = tt;
    held = λ k h. absurd (ground (arith, h));
  }

  new-IsValid : (d i : ℕ) (c : Cache A) → new d i ≡ ok c → IsValid c
  new-IsValid d i c h =
      let (nonzero, accepted, made) = new_ok d i c h in
      subst (λ c. IsValid c) made
        (fresh-IsValid d i (ground arith) (quotient-pos d i (ground arith) accepted))

  -- A call that throws has changed nothing.
  abbrev pub kept : Cache A → Outcome (Cache A) → Cache A
  kept c (ok c') = c'
  kept c _ = c

  abbrev pub left : {B : Type 0} → Outcome (Cache A × B) → Outcome (Cache A)
  left r = r >>= (λ p. ok (p.0))

  abbrev pub perform : Op A → Cache A → Cache A
  perform (insert_op key value ttl now) c = kept c (insert key value ttl now c)
  perform (contains_op key now) c = (contains key now c).0
  perform (get_op key now) c = (get key now c).0
  perform (contains_range_op start end now) c = kept c (left (contains_range start end now c))
  perform (get_range_op start end now) c = kept c (left (get_range start end now c))
  perform (first_op now) c = (get_first now c).0
  perform (last_op now) c = (get_last now c).0
  perform clear_op c = clear c

  abbrev pub run : List (Op A) → Cache A → Cache A
  run [] c = c
  run (op ∷ ops) c = run ops (perform op c)

  insert-IsValid :
      (key : ℕ) (value : A) (ttl now : ℕ) (c : Cache A)
      → IsValid c
      → IsValid (kept c (insert key value ttl now c))
  unfolding insert
  insert-IsValid key value ttl now c v = elim (Bool-cases (ltb c.duration ttl)) [
    | inl t ↦ rw t v
    | inr f ↦ rw f (store-IsValid key value _ _ (advance-IsValid now c v))
  ]

  contains_range-IsValid :
      (start end now : ℕ) (c : Cache A)
      → IsValid c
      → IsValid (kept c (left (contains_range start end now c)))
  unfolding contains_range
  contains_range-IsValid start end now c v = elim (Bool-cases (ltb end start)) [
    | inl t ↦ rw t v
    | inr f ↦ rw f (advance-IsValid now c v)
  ]

  get_range-IsValid :
      (start end now : ℕ) (c : Cache A)
      → IsValid c
      → IsValid (kept c (left (get_range start end now c)))
  unfolding get_range contains_range
  get_range-IsValid start end now c v = elim (Bool-cases (ltb end start)) [
    | inl t ↦ rw t v
    | inr f ↦ rw f (advance-IsValid now c v)
  ]

  perform-IsValid : (op : Op A) (c : Cache A) → IsValid c → IsValid (perform op c)
  unfolding contains get get_first get_last
  perform-IsValid (insert_op key value ttl now) c v = insert-IsValid key value ttl now c v
  perform-IsValid (contains_op key now) c v = advance-IsValid now c v
  perform-IsValid (get_op key now) c v = advance-IsValid now c v
  perform-IsValid (contains_range_op start end now) c v = contains_range-IsValid start end now c v
  perform-IsValid (get_range_op start end now) c v = get_range-IsValid start end now c v
  perform-IsValid (first_op now) c v = advance-IsValid now c v
  perform-IsValid (last_op now) c v = advance-IsValid now c v
  perform-IsValid clear_op c v = clear-IsValid c v

  run-IsValid_from : (ops : List (Op A)) (c : Cache A) → IsValid c → IsValid (run ops c)
  run-IsValid_from [] c v = v
  run-IsValid_from (op ∷ ops) c v = run-IsValid_from ops (perform op c) (perform-IsValid op c v)

  -- A cache that the constructor accepts stays valid under every sequence of its operations, at
  -- whatever times: its map stays sorted, and every key in it is in a bucket.
  pub run-IsValid_of_new :
      (duration interval : ℕ) (c : Cache A) (ops : List (Op A))
      → new duration interval ≡ ok c
      → IsValid (run ops c)
  run-IsValid_of_new duration interval c ops h =
      run-IsValid_from ops c (new-IsValid duration interval c h)
