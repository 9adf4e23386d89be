-- ===== src/PriorityQueue/Choice.antt =====
-- Which time queue `Front` and `PopFront` of a priority queue take from.
use mathlib.Core.Path.{subst}
use libquicr.Prelude.{
  ℕ, suc, ◌≡◌, refl, sym, ◌∙◌, ap, ◌⊎◌, Bool, true, false, List, [], ◌∷◌, ◌++◌, map, append_assoc,
  All, Bool-cases, inl, inr, if◌then◌else◌, ltb,
}
use libquicr.TimeQueue.{
  Entry, TimeQueue, Element, is_expired, scan, advance, front as front_timed,
  pop_front as pop_front_timed,
}
use libquicr.TimeQueue.Scan.{scan_live, scan_skip}
use libquicr.PriorityQueue.{Groups, PriorityQueue, visit_groups, visit_queues, front, pop_front}

-- The time queues in the order of the lists that the maps are.
abbrev pub in_order : {A : Type 0} → List (ℕ × Groups A) → List (TimeQueue A)
in_order [] = []
in_order ((p, groups) ∷ queues) = map (λ e. e.1) groups ++ in_order queues

pub if_true : {B : Type 0} (b : Bool) (x y : B) → b ≡ true → (if b then x else y) ≡ x
if_true b x y h = rw h refl

pub if_false : {B : Type 0} (b : Bool) (x y : B) → b ≡ false → (if b then x else y) ≡ y
if_false b x y h = rw h refl

module _ {A : Type 0} (method : Element A → TimeQueue A → TimeQueue A × Element A) where
  -- It gives missing value, whatever is in the caller's element.
  abbrev pub IsSilent : TimeQueue A → Type 0
  IsSilent t = (elem : Element A) → (method elem t).1.has_value ≡ false

  -- The element is what the method made of a time queue that has a value, behind silent ones only.
  abbrev pub TakesFirst : List (TimeQueue A) → Element A → Type 0
  TakesFirst ts r =
      (before : List (TimeQueue A)) × (t : TimeQueue A) × (after : List (TimeQueue A))
      × (elem : Element A) × (ts ≡ before ++ (t ∷ after))
      × All IsSilent before
      × (r ≡ (method elem t).1)
      × (r.has_value ≡ true)

  abbrev pub Outcomes : List (TimeQueue A) → Element A → Type 0
  Outcomes ts r = TakesFirst ts r ⊎ (All IsSilent ts × (r.has_value ≡ false))

  TakesFirst-left :
      (xs ys : List (TimeQueue A)) (r : Element A) → TakesFirst xs r → TakesFirst (xs ++ ys) r
  TakesFirst-left xs ys r (before, t, after, elem, split, silent, made, value) = (
    before,
    t,
    after ++ ys,
    elem,
    ap (λ l. l ++ ys) split ∙ append_assoc before (t ∷ after) ys,
    silent,
    made,
    value,
  )

  All-append :
      (xs ys : List (TimeQueue A)) → All IsSilent xs → All IsSilent ys → All IsSilent (xs ++ ys)
  All-append [] ys h k = k
  All-append (x ∷ xs) ys (p, h) k = (p, All-append xs ys h k)

  TakesFirst-right :
      (xs ys : List (TimeQueue A)) (r : Element A)
      → All IsSilent xs
      → TakesFirst ys r
      → TakesFirst (xs ++ ys) r
  TakesFirst-right xs ys r quiet (before, t, after, elem, split, silent, made, value) = (
    xs ++ before,
    t,
    after,
    elem,
    ap (λ l. xs ++ l) split ∙ sym (append_assoc xs before (t ∷ after)),
    All-append xs before quiet silent,
    made,
    value,
  )

  module _
      (same : (e e' : Element A) (t : TimeQueue A)
        → (method e t).1.has_value ≡ (method e' t).1.has_value) where
    abbrev Visited : List (TimeQueue A) → Element A → Bool → Type 0
    Visited ts r stopped =
        ((stopped ≡ true) × TakesFirst ts r)
        ⊎ ((stopped ≡ false) × All IsSilent ts × (r.has_value ≡ false))

    visit_groups-Visited :
        (elem : Element A) (groups : Groups A)
        → elem.has_value ≡ false
        → let v = visit_groups method elem groups in Visited (map (λ e. e.1) groups) v.1 v.3
    visit_groups-Visited elem [] h = inr (refl, tt, h)
    visit_groups-Visited elem ((group, t) ∷ groups) h =
        let r = method elem t in
        let ts = map (λ e. e.1) groups in
        elim (Bool-cases r.1.has_value) [
          | inl found ↦
              subst (λ (v : Groups A × Element A × List ℕ × Bool). Visited (t ∷ ts) v.1 v.3)
                (sym (if_true r.1.has_value _ _ found))
                (inl (refl, ([], t, ts, elem, refl, tt, refl, found)))
          | inr missing ↦
              let quiet : IsSilent t = λ e. same e elem t ∙ missing in
              subst (λ (v : Groups A × Element A × List ℕ × Bool). Visited (t ∷ ts) v.1 v.3)
                (sym (if_false r.1.has_value _ _ missing))
                (elim (visit_groups-Visited r.1 groups missing) [
                  | inl (stopped, first) ↦
                      inl (stopped, TakesFirst-right (t ∷ []) ts _ (quiet, tt) first)
                  | inr (on, silent, none_found) ↦ inr (on, (quiet, silent), none_found)
                ])
        ]

    visit_queues-Outcomes :
        (elem : Element A) (queues : List (ℕ × Groups A))
        → elem.has_value ≡ false
        → Outcomes (in_order queues) (visit_queues method elem queues).1
    visit_queues-Outcomes elem [] h = inr (tt, h)
    visit_queues-Outcomes elem ((priority, groups) ∷ queues) h =
        elim (visit_groups-Visited elem groups h) [
          | inl (stopped, first) ↦
              rw stopped (inl (TakesFirst-left (map (λ e. e.1) groups) (in_order queues) _ first))
          | inr (on, silent, none_found) ↦
              rw on
                (elim (visit_queues-Outcomes (visit_groups method elem groups).1 queues
                  none_found) [
                    | inl first ↦
                        inl (
                          TakesFirst-right (map (λ e. e.1) groups) (in_order queues) _ silent first)
                    | inr (quiet, left) ↦
                        inr
                          (All-append (map (λ e. e.1) groups) (in_order queues) silent quiet, left)
                  ])
        ]

-- Whether a time queue has a value does not depend on the caller's element.
module _ {A : Type 0} where
  has_value-scan :
      (now : ℕ) (b : List (List A)) (es : List Entry) (i : ℕ) (e e' : Element A)
      → e.has_value ≡ e'.has_value
      → (scan now b es i e).1.has_value ≡ (scan now b es i e').1.has_value
  unfolding scan
  has_value-scan now b [] i e e' h = h
  has_value-scan now b (x ∷ es) i e e' h = elim (Bool-cases (is_expired now b x)) [
    | inl t ↦
        rw (scan_skip now b x es i e t, scan_skip now b x es i e' t)
          (has_value-scan now b es (suc i) _ _ h)
    | inr f ↦
        rw (scan_live now b x es i e f, scan_live now b x es i e' f)
          (elim (Bool-cases (ltb now x.wait_for_tick)) [ inl t ↦ rw t h | inr g ↦ rw g refl ])
  ]

  has_value-front :
      (now : ℕ) (e e' : Element A) (t : TimeQueue A)
      → (front_timed now e t).1.has_value ≡ (front_timed now e' t).1.has_value
  unfolding front_timed
  has_value-front now e e' t = has_value-scan now (advance now t).buckets _ _ _ _ refl

  has_value-pop_front :
      (now : ℕ) (e e' : Element A) (t : TimeQueue A)
      → (pop_front_timed now e t).1.has_value ≡ (pop_front_timed now e' t).1.has_value
  unfolding pop_front_timed
  has_value-pop_front now e e' t = has_value-front now e e' t

  -- `Front` and `PopFront` give what the first time queue gives that has a value, in the order of the
  -- maps' lists, and the ones before it have none; or none of them has one.
  pub front-Outcomes :
      (now : ℕ) (elem : Element A) (q : PriorityQueue A)
      → Outcomes (λ e t. front_timed now e t) (in_order q.queues) (front now elem q).1
        × Outcomes (λ e t. pop_front_timed now e t) (in_order q.queues) (pop_front now elem q).1
  unfolding front pop_front
  front-Outcomes now elem q = (
    visit_queues-Outcomes (λ e t. front_timed now e t) (has_value-front now)
        (record elem { has_value = false; expired_count = 0 }) q.queues refl,
    visit_queues-Outcomes (λ e t. pop_front_timed now e t) (has_value-pop_front now)
        (record elem { has_value = false; expired_count = 0 }) q.queues refl,
  )
