-- ===== src/SafeQueue/Window.antt =====
-- The queue as a sliding window over what was pushed.
use libquicr.Prelude.{
  ℕ, zero, suc, ◌+◌, ◌-◌, ◌≤◌, ◌≡◌, refl, sym, ap, ◌∙◌, List, [], ◌∷◌, ◌++◌, append_assoc,
  append-nil, arith, length, leb, drop, length-append, length-drop, drop-append, Bool-cases, leb→le,
  leb→lt, drop_all, inl, inr,
}
use libquicr.SafeQueue.{SafeQueue, new, push, push_from}

module _ {A : Type 0} where
  unfoldable pub push_all : List A → SafeQueue A → SafeQueue A
  push_all [] q = q
  push_all (x ∷ xs) q = push_all xs (push x q).0

  -- The last `n` elements.
  abbrev pub last : ℕ → List A → List A
  last n xs = drop (length xs - n) xs

  drop-drop : (a b : ℕ) (xs : List A) → drop a (drop b xs) ≡ drop (b + a) xs
  drop-drop a zero xs = ap (λ n. drop n xs) (omega arith)
  drop-drop a (suc b) [] = drop_all a [] (omega arith) ∙ sym (drop_all (suc b + a) [] (omega arith))
  drop-drop a (suc b) (x ∷ xs) =
      drop-drop a b xs
      ∙ ap (λ n. drop n (x ∷ xs)) (let e : suc (b + a) ≡ suc b + a = omega arith in e)

  push_from-limit : (xs : List A) (x : A) (q : SafeQueue A) → (push_from xs x q).0.limit ≡ q.limit
  unfolding push_from
  push_from-limit [] x q = refl
  push_from-limit (y ∷ xs) x q = ground arith

  push_from-last :
      (xs : List A) (x : A) (q : SafeQueue A)
      → 1 ≤ q.limit
      → length xs ≤ q.limit
      → (push_from xs x q).0.queue ≡ last q.limit (xs ++ (x ∷ []))
  unfolding push_from
  push_from-last [] x q l h = ap (λ n. drop n (x ∷ [])) (let e : 0 ≡ 1 - q.limit = omega arith in e)
  push_from-last (y ∷ xs) x q l h = elim (Bool-cases (leb q.limit (suc (length xs)))) [
    | inl full ↦ rw full (
        ap (λ n. drop n (y ∷ (xs ++ (x ∷ []))))
          (let e : 1 ≡ suc (length (xs ++ (x ∷ []))) - q.limit =
              omega (arith, length-append xs (x ∷ []), leb→le _ _ full) in
            e))
    | inr room ↦ rw room (
        ap (λ n. drop n (y ∷ (xs ++ (x ∷ []))))
          (let e : 0 ≡ suc (length (xs ++ (x ∷ []))) - q.limit =
              omega (arith, length-append xs (x ∷ []), leb→lt _ _ room) in
            e))
  ]

  last-push :
      (n : ℕ) (ys : List A) (x : A)
      → 1 ≤ n
      → last n (last n ys ++ (x ∷ [])) ≡ last n (ys ++ (x ∷ []))
  last-push n ys x l =
      ap (λ t. last n t) (sym (drop-append (length ys - n) ys (x ∷ []) (omega arith)))
      ∙ drop-drop _ (length ys - n) (ys ++ (x ∷ []))
      ∙ ap (λ k. drop k (ys ++ (x ∷ [])))
          (omega (arith, length-append ys (x ∷ []), length-drop (length ys - n) (ys ++ (x ∷ []))))

  push_all-last :
      (xs ys : List A) (q : SafeQueue A)
      → 1 ≤ q.limit
      → q.queue ≡ last q.limit ys
      → (push_all xs q).queue ≡ last q.limit (ys ++ xs)
  unfolding push_all push
  push_all-last [] ys q l e = e ∙ rw append-nil
  push_all-last (x ∷ xs) ys q l e =
      push_all-last xs (ys ++ (x ∷ [])) q' (rw same l)
        (step ∙ ap (λ n. last n (ys ++ (x ∷ []))) (sym same))
      ∙ rw (same, append_assoc)
    where
      q' : SafeQueue A
      q' = (push_from q.queue x q).0

      same : q'.limit ≡ q.limit
      same = push_from-limit q.queue x q

      short : length q.queue ≤ q.limit
      short = rw e (omega (arith, length-drop (length ys - q.limit) ys))

      step : q'.queue ≡ last q.limit (ys ++ (x ∷ []))
      step =
          push_from-last q.queue x q l short
          ∙ ap (λ t. last q.limit (t ++ (x ∷ []))) e
          ∙ last-push q.limit ys x l

  -- A queue with a limit of at least 1 holds the last elements that were pushed, up to the limit, in
  -- the order in which they were pushed.
  pub push_all-new :
      (xs : List A) (limit : ℕ) → 1 ≤ limit → (push_all xs (new limit)).queue ≡ last limit xs
  push_all-new xs limit l =
      push_all-last xs [] (new limit) l (sym (drop_all (0 - limit) [] (omega arith)))

  push_zero_from :
      (xs : List A) (x : A) (q : SafeQueue A)
      → q.limit ≡ 0
      → length xs ≤ 1
      → (push_from xs x q).0.queue ≡ x ∷ []
  unfolding push_from
  push_zero_from [] x q z l = refl
  push_zero_from (y ∷ []) x q z l = ground arith
  push_zero_from (y ∷ w ∷ xs) x q z l = absurd (omega arith)

  push_all_zero :
      (xs : List A) (x : A) (q : SafeQueue A)
      → q.limit ≡ 0
      → length q.queue ≤ 1
      → (push_all (x ∷ xs) q).queue ≡ last 1 (x ∷ xs)
  unfolding push_all push
  push_all_zero [] x q z l = push_zero_from q.queue x q z l
  push_all_zero (y ∷ xs) x q z l =
      push_all_zero xs y (push_from q.queue x q).0 (push_from-limit q.queue x q ∙ z)
        (rw (push_zero_from q.queue x q z l) (omega arith))
      ∙ ap (λ n. drop n (x ∷ y ∷ xs))
          (let e : suc (suc (length xs) - 1) ≡ suc (suc (length xs)) - 1 = omega arith in e)

  -- A limit of 0 does not mean that there is none: the queue then holds just the last element.
  pub push_all-new_zero :
      (xs : List A) (x : A) → (push_all (x ∷ xs) (new 0)).queue ≡ last 1 (x ∷ xs)
  push_all-new_zero xs x = push_all_zero xs x (new 0) refl (omega arith)
