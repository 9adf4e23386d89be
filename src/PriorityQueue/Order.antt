-- ===== src/PriorityQueue/Order.antt =====
-- The order in which a priority queue looks at its time queues.
use libquicr.Prelude.{ℕ, ◌<◌, ◌≡◌, refl, ap, ◌⊎◌, inl, inr, List, [], ◌∷◌, ◌++◌, map, All}
use libquicr.Cache.Keys.{IsAbove, IsSorted}
use libquicr.TimeQueue.{TimeQueue, Element, front as front_timed, pop_front as pop_front_timed}
use libquicr.PriorityQueue.{Groups, PriorityQueue, front, pop_front}
use libquicr.PriorityQueue.Each.{Each}
use libquicr.PriorityQueue.Choice.{in_order, Outcomes, front-Outcomes}
use libquicr.PriorityQueue.Invariant.{GroupsAreValid, QueuesAreValid}

-- A priority and a group, each time queue's place.
abbrev pub Place : Type 0
Place = ℕ × ℕ

-- A lower priority goes first, and in one priority a lower group.
abbrev pub IsBefore : Place → Place → Type 0
IsBefore (p, g) (q, h) = (p < q) ⊎ ((p ≡ q) × (g < h))

module _ {A : Type 0} where
  -- The entries of one priority.
  abbrev pub placed : ℕ → Groups A → List (Place × TimeQueue A)
  placed p [] = []
  placed p ((g, t) ∷ groups) = ((p, g), t) ∷ placed p groups

  abbrev pub all_placed : List (ℕ × Groups A) → List (Place × TimeQueue A)
  all_placed [] = []
  all_placed ((p, groups) ∷ queues) = placed p groups ++ all_placed queues

  -- Every entry is before all that follow.
  abbrev pub Ascends : List (Place × TimeQueue A) → Type 0
  Ascends [] = Unit
  Ascends (x ∷ xs) = All (λ y. IsBefore x.0 y.0) xs × Ascends xs

  -- The same time queues, without their places.
  placed_groups :
      (p : ℕ) (groups : Groups A) (more : List (Place × TimeQueue A)) (ts : List (TimeQueue A))
      → map (λ e. e.1) more ≡ ts
      → map (λ e. e.1) (placed p groups ++ more) ≡ map (λ e. e.1) groups ++ ts
  placed_groups p [] more ts h = h
  placed_groups p ((g, t) ∷ groups) more ts h = ap (λ us. t ∷ us) (placed_groups p groups more ts h)

  in_order-all_placed :
      (queues : List (ℕ × Groups A)) → map (λ e. e.1) (all_placed queues) ≡ in_order queues
  in_order-all_placed [] = refl
  in_order-all_placed ((p, groups) ∷ queues) =
      placed_groups p groups (all_placed queues) (in_order queues) (in_order-all_placed queues)

  placed-IsAbove :
      (p g : ℕ) (groups : Groups A)
      → IsAbove g groups
      → All (λ y. IsBefore (p, g) y.0) (placed p groups)
  placed-IsAbove p g [] h = tt
  placed-IsAbove p g ((g', t) ∷ groups) (lt, h) = (inr (refl, lt), placed-IsAbove p g groups h)

  All-append :
      (x : Place) (xs ys : List (Place × TimeQueue A))
      → All (λ y. IsBefore x y.0) xs
      → All (λ y. IsBefore x y.0) ys
      → All (λ y. IsBefore x y.0) (xs ++ ys)
  All-append x [] ys h k = k
  All-append x (y ∷ xs) ys (b, h) k = (b, All-append x xs ys h k)

  placed_later :
      (p g q : ℕ) (groups : Groups A) → p < q → All (λ y. IsBefore (p, g) y.0) (placed q groups)
  placed_later p g q [] h = tt
  placed_later p g q ((g', t) ∷ groups) h = (inl h, placed_later p g q groups h)

  all_placed-IsAbove :
      (p g : ℕ) (queues : List (ℕ × Groups A))
      → IsAbove p queues
      → All (λ y. IsBefore (p, g) y.0) (all_placed queues)
  all_placed-IsAbove p g [] h = tt
  all_placed-IsAbove p g ((q, groups) ∷ queues) (lt, h) =
      All-append (p, g) (placed q groups) (all_placed queues) (placed_later p g q groups lt)
        (all_placed-IsAbove p g queues h)

  Ascends-placed :
      (p : ℕ) (groups : Groups A) (queues : List (ℕ × Groups A))
      → IsSorted groups
      → IsAbove p queues
      → Ascends (all_placed queues)
      → Ascends (placed p groups ++ all_placed queues)
  Ascends-placed p [] queues s above h = h
  Ascends-placed p ((g, t) ∷ groups) queues (lower, s) above h = (
    All-append (p, g) (placed p groups) (all_placed queues) (placed-IsAbove p g groups lower)
        (all_placed-IsAbove p g queues above),
    Ascends-placed p groups queues s above h,
  )

  Ascends-all_placed :
      (queues : List (ℕ × Groups A))
      → IsSorted queues
      → Each GroupsAreValid queues
      → Ascends (all_placed queues)
  Ascends-all_placed [] s v = tt
  Ascends-all_placed ((p, groups) ∷ queues) (above, s) ((sorted, valid), v) =
      Ascends-placed p groups queues sorted above (Ascends-all_placed queues s v)

  -- Of a queue that keeps its invariant, `Front` and `PopFront` give what the first time queue gives
  -- that has a value, and those before it have none; or none of them has one. They are taken by
  -- priority, the lowest first, and in one priority by group, the lowest first, in whatever order their
  -- objects were added.
  pub front-Ascends :
      (now : ℕ) (elem : Element A) (q : PriorityQueue A)
      → QueuesAreValid q
      → (let entries = all_placed q.queues in
          let ts = map (λ e. e.1) entries in
          Ascends entries
          × Outcomes (λ e t. front_timed now e t) ts (front now elem q).1
          × Outcomes (λ e t. pop_front_timed now e t) ts (pop_front now elem q).1)
  front-Ascends now elem q v =
      let (first, popped) = front-Outcomes now elem q in
      rw (in_order-all_placed q.queues)
        (Ascends-all_placed q.queues v.sorted v.in_use, first, popped)
