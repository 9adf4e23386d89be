-- ===== src/TimeQueue/Buckets.antt =====
-- The buckets and the set of those in use, under the operations that clear them.
use libquicr.Prelude.{
  ℕ, zero, suc, ◌<◌, ◌≡◌, ◌≢◌, refl, ◌∙◌, ap, Bool, false, ◌||◌, ◌&&◌, not, List, [], ◌∷◌, arith,
  length, ◌==◌, get_or, set, if◌then◌else◌, Bool-cases, inl, inr, is_nil,
}
use libquicr.TimeQueue.{insert_index, clear_bucket, clear_buckets, in_range, sweep}

abbrev pub has_index : ℕ → List ℕ → Bool
has_index i [] = false
has_index i (j ∷ js) = i == j || has_index i js

pub has_index-insert_index :
    (i j : ℕ) (js : List ℕ) → has_index i (insert_index j js) ≡ (i == j || has_index i js)
has_index-insert_index i j [] = refl
has_index-insert_index i j (k ∷ js) = ground (arith, has_index-insert_index i j js)

module _ {A : Type 0} where
  pub get_or-set_nil :
      (xs : List (List A)) (i j : ℕ)
      → is_nil (get_or (set xs i []) j []) ≡ (i == j || is_nil (get_or xs j []))
  get_or-set_nil [] i j = ground arith
  get_or-set_nil (x ∷ xs) zero zero = refl
  get_or-set_nil (x ∷ xs) zero (suc j) = ground arith
  get_or-set_nil (x ∷ xs) (suc i) zero = ground arith
  get_or-set_nil (x ∷ xs) (suc i) (suc j) = get_or-set_nil xs i j ∙ ground arith

  pub get_or-set_ne :
      (xs : List (List A)) (i j : ℕ) (v : List A)
      → i ≢ j
      → get_or (set xs i v) j [] ≡ get_or xs j []
  get_or-set_ne [] i j v h = refl
  get_or-set_ne (x ∷ xs) zero zero v h = absurd (h refl)
  get_or-set_ne (x ∷ xs) zero (suc j) v h = refl
  get_or-set_ne (x ∷ xs) (suc i) zero v h = refl
  get_or-set_ne (x ∷ xs) (suc i) (suc j) v h = get_or-set_ne xs i j v (λ e. h (ap suc e))

  pub get_or-set_self :
      (xs : List (List A)) (i : ℕ) (v : List A) → i < length xs → get_or (set xs i v) i [] ≡ v
  get_or-set_self [] i v h = elim h [ ]
  get_or-set_self (x ∷ xs) zero v h = refl
  get_or-set_self (x ∷ xs) (suc i) v h = get_or-set_self xs i v (omega arith)

  pub length-set : (xs : List (List A)) (i : ℕ) (v : List A) → length (set xs i v) ≡ length xs
  length-set [] i v = refl
  length-set (x ∷ xs) zero v = refl
  length-set (x ∷ xs) (suc i) v = ap suc (length-set xs i v)

  pub length-clear_buckets :
      (is : List ℕ) (b : List (List A)) → length (clear_buckets is b) ≡ length b
  length-clear_buckets [] b = refl
  length-clear_buckets (i ∷ is) b = length-clear_buckets is (clear_bucket i b) ∙ length-set b i []

  pub is_nil-clear_buckets :
      (is : List ℕ) (b : List (List A)) (j : ℕ)
      → is_nil (get_or (clear_buckets is b) j []) ≡ (has_index j is || is_nil (get_or b j []))
  is_nil-clear_buckets [] b j = refl
  is_nil-clear_buckets (i ∷ is) b j =
      ground (arith, is_nil-clear_buckets is (clear_bucket i b) j, get_or-set_nil b i j)

  pub length-sweep :
      (s e : ℕ) (is kept : List ℕ) (b : List (List A)) → length (sweep s e is b kept).0 ≡ length b
  length-sweep s e [] kept b = refl
  length-sweep s e (i ∷ is) kept b =
      length-sweep s e is _ _
      ∙ elim (Bool-cases (in_range s e i)) [ inl t ↦ rw t (length-set b i []) | inr f ↦ rw f ]

  -- What a sweep leaves: a bucket is empty if it was, or if it was in use and in the range.
  pub is_nil-sweep :
      (s e : ℕ) (is kept : List ℕ) (b : List (List A)) (j : ℕ)
      → is_nil (get_or (sweep s e is b kept).0 j [])
        ≡ ((has_index j is && in_range s e j) || is_nil (get_or b j []))
  is_nil-sweep s e [] kept b j = refl
  is_nil-sweep s e (i ∷ is) kept b j =
      is_nil-sweep s e is (if in_range s e i then kept else insert_index i kept)
        (if in_range s e i then clear_bucket i b else b) j
      ∙ elim (Bool-cases (in_range s e i)) [
        | inl t ↦ rw t (ground (arith, get_or-set_nil b i j))
        | inr f ↦ rw f (ground arith)
      ]

  pub has_index-sweep :
      (s e : ℕ) (is kept : List ℕ) (b : List (List A)) (j : ℕ)
      → has_index j (sweep s e is b kept).1
        ≡ ((has_index j is && not (in_range s e j)) || has_index j kept)
  has_index-sweep s e [] kept b j = refl
  has_index-sweep s e (i ∷ is) kept b j =
      has_index-sweep s e is (if in_range s e i then kept else insert_index i kept)
        (if in_range s e i then clear_bucket i b else b) j
      ∙ elim (Bool-cases (in_range s e i)) [
        | inl t ↦ rw t (ground arith)
        | inr f ↦ rw f (ground (arith, has_index-insert_index j i kept))
      ]
