-- ===== src/Messages/Extensions/Fuel.antt =====
-- The loop of `ParseExtensions` ends.
use mathlib.Core.Path.{subst}
use libquicr.Prelude.{
  ℕ, zero, suc, ◌%◌, ◌≤◌, ◌<◌, ◌≢◌, refl, sym, true, false, Option, none, some, List, [], ◌∷◌,
  arith, length, ◌==◌, Bool-cases, inl, inr, Outcome, ok, throws, undefined, unfinished, ◌>>=◌, All,
  ◌++◌,
}
use libquicr.UintVar.{encode}
use libquicr.UintVar.Bounds.{IsByte}
use libquicr.StreamBuffer.{Read, read_uint_v, decode_bytes}
use libquicr.StreamBuffer.Decode.{IsStable, read_uint_v-IsStable}
use libquicr.StreamBuffer.Bytes.{decode_bytes-IsStable}
use libquicr.Messages.Stage.{Parsed, need}
use libquicr.Messages.Extensions.{
  Progress, parse_value, parse_tag, parse_pair, chain, parse_pairs, parse_block, parse_length,
  parse_extensions,
}

All-suffix : (xs ys : List ℕ) → All IsByte (xs ++ ys) → All IsByte ys
All-suffix [] ys h = h
All-suffix (x ∷ xs) ys (p, h) = All-suffix xs ys h

module _ {M : Type 0} where
  abbrev Finishes : Parsed M → Type 0
  Finishes unfinished = ⊥
  Finishes _ = Unit

  -- It does not run out of fuel, and if it is complete, fewer than `n` bytes are left.
  abbrev Takes : ℕ → Parsed M → Type 0
  Takes n (ok (true, b, m)) = (length b < n) × All IsByte b
  Takes n unfinished = ⊥
  Takes n _ = Unit

  need-Takes :
      {A : Type 0} (n : ℕ) (read : List ℕ → Read A) (b : List ℕ) (m : M) (k : A → List ℕ → Parsed M)
      → IsStable read b
      → All IsByte b
      → ((a : A) (rest : List ℕ) → length rest < length b → All IsByte rest → Takes n (k a rest))
      → Takes n (need (read b) m k)
  need-Takes n read b m k (inl none_left) bytes next = rw none_left tt
  need-Takes n read b m k (inr (a, rest, now, later, less, (taken, whole))) bytes next =
      rw now
        (next a rest less (All-suffix taken rest (subst (λ b. All IsByte b) (sym whole) bytes)))

  bind-Takes :
      {A : Type 0} (n : ℕ) (x : Outcome A) (k : A → Parsed M)
      → x ≢ unfinished
      → ((a : A) → Takes n (k a))
      → Takes n (x >>= k)
  bind-Takes n (ok a) k h next = next a
  bind-Takes n (throws e) k h next = tt
  bind-Takes n undefined k h next = tt
  bind-Takes n unfinished k h next = absurd (h refl)

encode_ends : (n : ℕ) → encode n ≢ unfinished
unfolding encode
encode_ends n e = ground (arith, e)

parse_value-Takes :
    (n tag : ℕ) (b : List ℕ) (p : Progress)
    → length b ≤ n
    → All IsByte b
    → Takes n (parse_value tag b p)
unfolding parse_value
parse_value-Takes n tag b p le bytes = elim (Bool-cases (tag % 2 == 0)) [
  | inl t ↦ rw t (
      need-Takes n (read_uint_v true) b p _ (read_uint_v-IsStable b) bytes
        (λ a rest less all. (omega (arith, less, le), all)))
  | inr f ↦ rw f (
      need-Takes n decode_bytes b p _ (decode_bytes-IsStable b bytes) bytes (λ a rest less all.
        bind-Takes n (encode (length a)) _ (encode_ends (length a))
          (λ u. (omega (arith, less, le), all))))
]

parse_tag-Takes :
    (h : Option ℕ) (b : List ℕ) (p : Progress) → All IsByte b → Takes (length b) (parse_tag h b p)
unfolding parse_tag
parse_tag-Takes (some tag) b p bytes = parse_value-Takes (length b) tag b p (omega arith) bytes
parse_tag-Takes none b p bytes =
    need-Takes (length b) (read_uint_v true) b p _ (read_uint_v-IsStable b) bytes
      (λ a rest less all. parse_value-Takes (length b) _ rest _ (omega (arith, less)) all)

chain-Finishes :
    (n : ℕ) (r : Parsed Progress) (k : List ℕ → Progress → Parsed Progress)
    → Takes n r
    → ((b : List ℕ) (p : Progress) → length b < n → All IsByte b → Finishes (k b p))
    → Finishes (chain r k)
chain-Finishes n (ok (true, b, p)) k (less, all) next = next b p less all
chain-Finishes n (ok (false, b, p)) k less next = tt
chain-Finishes n (throws e) k less next = tt
chain-Finishes n undefined k less next = tt
chain-Finishes n unfinished k less next = less

parse_pairs-Finishes :
    (fuel : ℕ) (b : List ℕ) (p : Progress)
    → length b < fuel
    → All IsByte b
    → Finishes (parse_pairs fuel b p)
unfolding parse_pairs parse_pair
parse_pairs-Finishes zero b p h bytes = absurd (omega (arith, h))
parse_pairs-Finishes (suc fuel) b p h bytes = elim (Bool-cases (p.bytes_remaining == 0)) [
  | inl t ↦ rw (parse_pairs, t) tt
  | inr f ↦
      rw (parse_pairs, f)
        (chain-Finishes (length b) (parse_tag p.current_header b p) (λ b q. parse_pairs fuel b q)
          (parse_tag-Takes p.current_header b p bytes)
          (λ rest q less all. parse_pairs-Finishes fuel rest q (omega (arith, h, less)) all))
]

parse_block-Finishes :
    (n : ℕ) (b : List ℕ) (p : Progress) → All IsByte b → Finishes (parse_block n b p)
unfolding parse_block
parse_block-Finishes n b p bytes = elim (Bool-cases (n == 0)) [
  | inl t ↦ rw t tt
  | inr f ↦ rw f (parse_pairs-Finishes (suc (length b)) b _ (omega arith) bytes)
]

need-Finishes :
    {A : Type 0} (read : List ℕ → Read A) (b : List ℕ) (p : Progress)
    (k : A → List ℕ → Parsed Progress)
    → IsStable read b
    → All IsByte b
    → ((a : A) (rest : List ℕ) → All IsByte rest → Finishes (k a rest))
    → Finishes (need (read b) p k)
need-Finishes read b m k (inl none_left) bytes next = rw none_left tt
need-Finishes read b m k (inr (a, rest, now, later, less, (taken, whole))) bytes next =
    rw now (next a rest (All-suffix taken rest (subst (λ b. All IsByte b) (sym whole) bytes)))

parse_length-Finishes :
    (h : Option ℕ) (b : List ℕ) (p : Progress) → All IsByte b → Finishes (parse_length h b p)
unfolding parse_length
parse_length-Finishes (some n) b p bytes = parse_block-Finishes n b p bytes
parse_length-Finishes none b p bytes =
    need-Finishes (read_uint_v true) b p _ (read_uint_v-IsStable b) bytes
      (λ a rest all. parse_block-Finishes _ rest _ all)

-- Whatever bytes are in the buffer and however far the parse is, `ParseExtensions` does not run out of
-- fuel: its loop ends.
pub parse_extensions_ends :
    (buffer : List ℕ) (p : Progress) → All IsByte buffer → parse_extensions buffer p ≢ unfinished
unfolding parse_extensions
parse_extensions_ends buffer p bytes e =
    subst (λ r. Finishes r) e (parse_length-Finishes p.headers_length buffer p bytes)
