-- ===== src/PriorityQueue/Keys.antt =====
-- The loops of a priority queue change no keys, and what the list of free time queues holds.
use mathlib.Core.Path.{subst}
use libquicr.Prelude.{ℕ, ◌≡◌, refl, ap, sym, Bool, List, [], ◌∷◌, Bool-cases, inl, inr, ok, arith}
use libquicr.Cache.Keys.{keys}
use libquicr.TimeQueue.{
  TimeQueue, Element, new as new_timed, clear as clear_timed, empty as empty_timed,
}
use libquicr.TimeQueue.Invariant.{IsValid, new-IsValid, clear-IsValid, new_ok}
use libquicr.PriorityQueue.Choice.{if_true, if_false}
use libquicr.PriorityQueue.{Groups, visit_groups, visit_queues, pop_groups, pop_queues}

module _ {A : Type 0} where
  -- A time queue that can be given to another group: none of its entries is left.
  abbrev pub IsIdle : TimeQueue A → Type 0
  IsIdle t = IsValid t × (t.queue ≡ [])

  pub new-IsIdle : (d i : ℕ) (t : TimeQueue A) → new_timed d i ≡ ok t → IsIdle t
  new-IsIdle d i t h =
      let (nonzero, accepted, made) = new_ok d i t h in
      (new-IsValid d i t h, ap (λ t. t.queue) (sym made))

  queue-clear : (t : TimeQueue A) → (clear_timed t).queue ≡ []
  unfolding clear_timed
  queue-clear t = ground arith

  pub clear-IsIdle : (t : TimeQueue A) → IsValid t → IsIdle (clear_timed t)
  clear-IsIdle t v = (clear-IsValid t v, queue-clear t)

  module _ (method : Element A → TimeQueue A → TimeQueue A × Element A) where
    pub keys-visit_groups :
        (e : Element A) (groups : Groups A) → keys (visit_groups method e groups).0 ≡ keys groups
    keys-visit_groups e [] = refl
    keys-visit_groups e ((g, t) ∷ groups) = elim (Bool-cases (method e t).1.has_value) [
      | inl found ↦
          subst (λ (v : Groups A × Element A × List ℕ × Bool). keys v.0 ≡ g ∷ keys groups)
            (sym (if_true (method e t).1.has_value _ _ found)) refl
      | inr missing ↦
          subst (λ (v : Groups A × Element A × List ℕ × Bool). keys v.0 ≡ g ∷ keys groups)
            (sym (if_false (method e t).1.has_value _ _ missing))
            (ap (λ ks. g ∷ ks) (keys-visit_groups (method e t).1 groups))
    ]

    pub keys-visit_queues :
        (e : Element A) (queues : List (ℕ × Groups A))
        → keys (visit_queues method e queues).0 ≡ keys queues
    keys-visit_queues e [] = refl
    keys-visit_queues e ((p, groups) ∷ queues) =
        elim (Bool-cases (visit_groups method e groups).3) [
          | inl stopped ↦ rw stopped refl
          | inr on ↦
              rw on (ap (λ ks. p ∷ ks) (keys-visit_queues (visit_groups method e groups).1 queues))
        ]

  pub keys-pop_groups : (groups : Groups A) → keys (pop_groups groups).0 ≡ keys groups
  keys-pop_groups [] = refl
  keys-pop_groups ((g, t) ∷ groups) = elim (Bool-cases (empty_timed t)) [
    | inl e ↦ rw e (ap (λ ks. g ∷ ks) (keys-pop_groups groups))
    | inr f ↦ rw f refl
  ]

  pub keys-pop_queues :
      (ids : List (ℕ × List ℕ)) (queues : List (ℕ × Groups A))
      → keys (pop_queues ids queues).0 ≡ keys queues
  keys-pop_queues ids [] = refl
  keys-pop_queues ids ((p, groups) ∷ queues) = elim (Bool-cases (pop_groups groups).2) [
    | inl stopped ↦ rw stopped refl
    | inr on ↦ rw on (ap (λ ks. p ∷ ks) (keys-pop_queues ((p, (pop_groups groups).1) ∷ []) queues))
  ]
