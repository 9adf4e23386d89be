-- ===== src/Messages/Stage.antt =====
-- The shape of the stream parsers: a `switch` on `current_pos` whose cases fall through, each of which
-- returns false when the buffer does not hold its field yet.
use libquicr.Prelude.{
  ℕ, ◌≡◌, refl, sym, inl, inr, Bool, true, false, none, some, List, [], ◌∷◌, ◌++◌, Outcome, ok,
  throws, undefined, unfinished, arith,
}
use libquicr.StreamBuffer.{Read, front, pop}
use libquicr.StreamBuffer.Decode.{IsStable}

-- The result of `operator>>`, the buffer and the message.
abbrev pub Parsed : Type 0 → Type 0
Parsed M = Outcome (Bool × List ℕ × M)

-- `if (!read) { return false; }`, and the statements behind it.
abbrev pub need : {A M : Type 0} → Read A → M → (A → List ℕ → Parsed M) → Parsed M
need (ok (none, b)) m k = ok (false, b, m)
need (ok (some a, b)) m k = k a b
need (throws e) m k = throws e
need undefined m k = undefined
need unfinished m k = unfinished

-- `auto val = buffer.Front(); if (!val) …; buffer.Pop();`
unfoldable pub read_byte : List ℕ → Read ℕ
read_byte b = elim (front b) [ none ↦ ok (none, b) | some x ↦ ok (some x, pop b) ]

pub read_byte-IsStable : (b : List ℕ) → IsStable read_byte b
unfolding read_byte
read_byte-IsStable [] = inl refl
read_byte-IsStable (x ∷ xs) = inr (x, xs, refl, (λ more. refl), omega arith, (x ∷ [], refl))

-- `r` is what the parser did with the bytes that were there, `whole` what it does with `more` behind them.
-- If `r` asks for more, going on with the rest and `more` gives `whole`; if it is complete, `more` is left.
abbrev pub Resumes : {M : Type 0} → (List ℕ → M → Parsed M) → List ℕ → Parsed M → Parsed M → Type 0
Resumes parse more (ok (false, b, m)) whole = whole ≡ parse (b ++ more) m
Resumes parse more (ok (true, b, m)) whole = whole ≡ ok (true, b ++ more, m)
Resumes parse more (throws e) whole = whole ≡ throws e
Resumes parse more undefined whole = whole ≡ undefined
Resumes parse more unfinished whole = whole ≡ unfinished

module _ {M : Type 0} (parse : List ℕ → M → Parsed M) (more : List ℕ) where
  pub need-Resumes :
      {A : Type 0} (read : List ℕ → Read A) (b : List ℕ) (m : M) (k : A → List ℕ → Parsed M)
      → IsStable read b
      → need (read (b ++ more)) m k ≡ parse (b ++ more) m
      → ((a : A) (rest : List ℕ) → Resumes parse more (k a rest) (k a (rest ++ more)))
      → Resumes parse more (need (read b) m k) (need (read (b ++ more)) m k)
  need-Resumes read b m k (inl none_left) here next = rw none_left here
  need-Resumes read b m k (inr (a, rest, now, later, less, taken)) here next =
      rw (now, later more) (next a rest)

-- After the last case the parser returns `parse_completed` and reads nothing.
pub done-Resumes :
    {M : Type 0} (parse : List ℕ → M → Parsed M) (c : Bool) (b more : List ℕ) (m : M)
    → ((b : List ℕ) → parse b m ≡ ok (c, b, m))
    → Resumes parse more (ok (c, b, m)) (ok (c, b ++ more, m))
done-Resumes parse true b more m h = refl
done-Resumes parse false b more m h = sym (h (b ++ more))
