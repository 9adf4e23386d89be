-- ===== src/TimeQueue/Invariant.antt =====
-- The invariant of a time queue under each of its operations.
use native.Mathlib.Nat.{mod-lt, eq-zero-or-pos, div-add-mod, div-le_self, le-div_iff_mul-le}
use mathlib.Core.Path.{subst}
use libquicr.Prelude.{
  ℕ, ◌+◌, ◌/◌, ◌%◌, ◌<◌, ◌≡◌, refl, ◌∙◌, ap, true, false, ◌||◌, not, List, [], ◌∷◌, ◌++◌, arith,
  length, leb, ltb, ◌==◌, get_or, if◌then◌else◌, replicate, Bool-cases, inl, inr, All, ok, sub64,
  u64, tests, is_nil, length-replicate, get_or-replicate,
}
use libquicr.TimeQueue.{
  TimeQueue, Entry, Element, new, clear, clear_range, set_bucket_index, slide, elapsed, advance,
  enqueue, front, pop, pop_if, pop_front, max_buckets,
}
use libquicr.TimeQueue.Buckets.{
  has_index, has_index-insert_index, get_or-set_ne, length-set, length-clear_buckets,
  is_nil-clear_buckets, length-sweep, is_nil-sweep, has_index-sweep,
}

All-append : (P : Entry → Type 0) (xs ys : List Entry) → All P xs → All P ys → All P (xs ++ ys)
All-append P [] ys h k = k
All-append P (x ∷ xs) ys (p, h) k = (p, All-append P xs ys h k)

is_nil-append_cons :
    {B : Type 0} (xs : List B) (x : B) (ys : List B) → is_nil (xs ++ (x ∷ ys)) ≡ false
is_nil-append_cons [] x ys = refl
is_nil-append_cons (y ∷ xs) x ys = refl

-- What the constructor makes of a duration and an interval that it accepts.
abbrev pub fresh : (A : Type 0) → ℕ → ℕ → TimeQueue A
fresh A d i = record {
  duration = d;
  interval = i;
  total_buckets = d / i;
  bucket_index = 0;
  queue_index = 0;
  current_ticks = 0;
  buckets = replicate (d / i) [];
  bucket_inuse_indexes = [];
  queue = [];
}

pub quotient-pos : (d i : ℕ) → 0 < i → ((d == 0 || not (d % i == 0)) || d == i) ≡ false → 0 < d / i
quotient-pos d i h k = elim (eq-zero-or-pos (d / i)) [
  | inl z ↦ absurd (ground (arith, div-add-mod d i, z))
  | inr p ↦ p
]

pub scaled-pos : (d i : ℕ) → ltb max_buckets (d / i) ≡ true → 0 < d / (d / max_buckets)
scaled-pos d i h =
    let large : 1000 < d = omega (tests, h, div-le_self d i) in
    (le-div_iff_mul-le {k = d / 1000} {x = 1} {y = d} (omega (arith, large))).1
      (omega (arith, div-le_self d 1000))

module _ {A : Type 0} where
  -- The buckets are as many as the constructor made, the indexes are among them, every bucket that
  -- holds a value is in use, and an empty queue has only empty buckets.
  pub record IsValid (q : TimeQueue A) : Type 0 where
    pub positive : 0 < q.total_buckets
    pub as_made : length q.buckets ≡ q.total_buckets
    pub index : q.bucket_index < q.total_buckets
    pub entries : All (λ e. e.bucket < q.total_buckets) q.queue
    pub in_use :
        (j : ℕ) → (is_nil (get_or q.buckets j []) || has_index j q.bucket_inuse_indexes) ≡ true
    pub in_bounds : (j : ℕ) → has_index j q.bucket_inuse_indexes ≡ true → j < q.total_buckets
    pub cleared : is_nil q.queue ≡ true → (j : ℕ) → is_nil (get_or q.buckets j []) ≡ true

  pub clear-IsValid : (q : TimeQueue A) → IsValid q → IsValid (clear q)
  unfolding clear
  clear-IsValid q v = elim (Bool-cases (is_nil q.queue)) [
    | inl t ↦ rw t v
    | inr f ↦ rw f (record {
      positive = v.positive;
      as_made = length-clear_buckets q.bucket_inuse_indexes q.buckets ∙ v.as_made;
      index = v.positive;
      entries = tt;
      in_use =
          λ j. ground (arith, is_nil-clear_buckets q.bucket_inuse_indexes q.buckets j, v.in_use j);
      in_bounds = λ j h. absurd (ground (arith, h));
      cleared = λ h j.
          ground (arith, is_nil-clear_buckets q.bucket_inuse_indexes q.buckets j, v.in_use j);
    })
  ]

  clear_range-IsValid : (s e : ℕ) (q : TimeQueue A) → IsValid q → IsValid (clear_range s e q)
  unfolding clear_range
  clear_range-IsValid s e q v = record {
    positive = v.positive;
    as_made = length-sweep s e q.bucket_inuse_indexes [] q.buckets ∙ v.as_made;
    index = v.index;
    entries = v.entries;
    in_use = λ j. ground (
      arith,
      is_nil-sweep s e q.bucket_inuse_indexes [] q.buckets j,
      has_index-sweep s e q.bucket_inuse_indexes [] q.buckets j,
      v.in_use j,
    );
    in_bounds = λ j h.
        v.in_bounds j (ground (arith, has_index-sweep s e q.bucket_inuse_indexes [] q.buckets j));
    cleared = λ h j.
        ground (arith, is_nil-sweep s e q.bucket_inuse_indexes [] q.buckets j, v.cleared h j);
  }

  set_bucket_index-IsValid :
      (i : ℕ) (q : TimeQueue A) → i < q.total_buckets → IsValid q → IsValid (set_bucket_index i q)
  set_bucket_index-IsValid i q h v = record {
    positive = v.positive;
    as_made = v.as_made;
    index = h;
    entries = v.entries;
    in_use = v.in_use;
    in_bounds = v.in_bounds;
    cleared = v.cleared;
  }

  slide-IsValid : (delta : ℕ) (q : TimeQueue A) → IsValid q → IsValid (slide delta q)
  unfolding slide clear_range
  slide-IsValid delta q v =
      let below : u64 (q.bucket_index + delta) % q.total_buckets < q.total_buckets =
        mod-lt (u64 (q.bucket_index + delta)) v.positive in
      elim (Bool-cases (ltb q.total_buckets (u64 (q.bucket_index + delta)))) [
        | inl t ↦ rw t (
            clear_range-IsValid 0 _ _
              (set_bucket_index-IsValid _ _ below (clear_range-IsValid _ _ q v)))
        | inr f ↦ rw f (set_bucket_index-IsValid _ _ below (clear_range-IsValid _ _ q v))
      ]

  at_ticks-IsValid :
      (now : ℕ) (q : TimeQueue A) → IsValid q → IsValid (record q { current_ticks = now })
  at_ticks-IsValid now q v = record {
    positive = v.positive;
    as_made = v.as_made;
    index = v.index;
    entries = v.entries;
    in_use = v.in_use;
    in_bounds = v.in_bounds;
    cleared = v.cleared;
  }

  pub advance-IsValid : (now : ℕ) (q : TimeQueue A) → IsValid q → IsValid (advance now q)
  unfolding advance
  advance-IsValid now q v =
      let v' = at_ticks-IsValid now q v in
      elim (Bool-cases (elapsed now q == 0)) [
        | inl t ↦ rw t v'
        | inr f ↦ rw f (elim (Bool-cases (leb q.total_buckets (elapsed now q / q.interval))) [
          | inl t ↦ rw t (clear-IsValid _ v')
          | inr g ↦ rw g (slide-IsValid _ _ v')
        ])
      ]

  pub enqueue-IsValid :
      (value : A) (ttl delay_ttl now : ℕ) (q : TimeQueue A)
      → IsValid q
      → IsValid (enqueue value ttl delay_ttl now q)
  unfolding enqueue
  enqueue-IsValid value ttl delay_ttl now q v =
      let future = sub64 (q.bucket_index + ttl / q.interval) 1 % q.total_buckets in
      record {
        positive = v.positive;
        as_made = length-set q.buckets future _ ∙ v.as_made;
        index = v.index;
        entries =
            All-append (λ e. e.bucket < q.total_buckets) q.queue _ v.entries
              (mod-lt _ v.positive, tt);
        in_use = λ j. elim (Bool-cases (future == j)) [
          | inl t ↦ ground (arith, has_index-insert_index j future q.bucket_inuse_indexes)
          | inr f ↦ ground (
            arith,
            has_index-insert_index j future q.bucket_inuse_indexes,
            get_or-set_ne q.buckets future j (get_or q.buckets future [] ++ (value ∷ []))
                (λ e. ground (arith, e)),
            v.in_use j,
          )
        ];
        in_bounds = λ j h. elim (Bool-cases (j == future)) [
          | inl t ↦ let below : future < q.total_buckets = mod-lt _ v.positive in ground arith
          | inr f ↦
              v.in_bounds j
                (ground (arith, has_index-insert_index j future q.bucket_inuse_indexes, h))
        ];
        cleared = λ h j. absurd (ground (arith, h, is_nil-append_cons q.queue _ []));
      }

  fresh-IsValid : (d i : ℕ) → 0 < d / i → IsValid (fresh A d i)
  fresh-IsValid d i h = record {
    positive = h;
    as_made = length-replicate (d / i) [];
    index = h;
    entries = tt;
    in_use = λ j. ap (λ b. is_nil b || false) (get_or-replicate (d / i) j []);
    in_bounds = λ j h. absurd (ground (arith, h));
    cleared = λ h j. ap (λ b. is_nil b) (get_or-replicate (d / i) j []);
  }

  pub new_ok :
      (d i : ℕ) (q : TimeQueue A)
      → new d i ≡ ok q
      → ((i == 0) ≡ false)
        × (((d == 0 || not (d % i == 0)) || d == i) ≡ false)
        × (fresh A d (if ltb max_buckets (d / i) then d / max_buckets else i) ≡ q)
  unfolding new
  new_ok d i q h = ground (arith, h)

  -- The queue that the constructor makes has a bucket, also when it changes the interval.
  pub new-IsValid : (d i : ℕ) (q : TimeQueue A) → new d i ≡ ok q → IsValid q
  new-IsValid d i q h =
      let (nonzero, accepted, made) = new_ok d i q h in
      subst (λ q. IsValid q) made
        (fresh-IsValid d _ (elim (Bool-cases (ltb max_buckets (d / i))) [
          | inl t ↦ rw t (scaled-pos d i t)
          | inr f ↦ rw f (quotient-pos d i (ground arith) accepted)
        ]))

  IsValid-with_queue_index :
      (i : ℕ) (q : TimeQueue A) → IsValid q → IsValid (record q { queue_index = i })
  IsValid-with_queue_index i q v = record {
    positive = v.positive;
    as_made = v.as_made;
    index = v.index;
    entries = v.entries;
    in_use = v.in_use;
    in_bounds = v.in_bounds;
    cleared = v.cleared;
  }

  pub front-IsValid :
      (now : ℕ) (elem : Element A) (q : TimeQueue A) → IsValid q → IsValid (front now elem q).0
  unfolding front
  front-IsValid now elem q v = IsValid-with_queue_index _ _ (advance-IsValid now q v)

  pub pop-IsValid : (q : TimeQueue A) → IsValid q → IsValid (pop q)
  unfolding pop
  pop-IsValid q v = elim (Bool-cases (is_nil q.queue)) [
    | inl t ↦ rw t v
    | inr f ↦ rw f (IsValid-with_queue_index _ q v)
  ]

  pop_if-IsValid : (r : TimeQueue A × Element A) → IsValid r.0 → IsValid (pop_if r).0
  pop_if-IsValid (q, elem) v = elim (Bool-cases elem.has_value) [
    | inl t ↦ rw t (pop-IsValid q v)
    | inr f ↦ rw f v
  ]

  pub pop_front-IsValid :
      (now : ℕ) (elem : Element A) (q : TimeQueue A) → IsValid q → IsValid (pop_front now elem q).0
  unfolding pop_front
  pop_front-IsValid now elem q v = pop_if-IsValid (front now elem q) (front-IsValid now elem q v)
