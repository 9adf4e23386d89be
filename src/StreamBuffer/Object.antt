-- ===== src/StreamBuffer/Object.antt =====
-- The whole `StreamBuffer` object: its queue and the parsed data that callers keep in it.
use libquicr.Prelude.{
  ℕ, Bool, true, false, Option, none, some, List, [], Outcome, ok, throws, bad_any_cast,
}

pub record StreamBuffer (A D E : Type 0) : Type 0 where
  pub buffer : List A
  pub parsed_data : Option D
  pub parsed_data_b : Option E
  pub parsed_data_type : Option ℕ

abbrev has_value : {A : Type 0} → Option A → Bool
has_value none = false
has_value (some a) = true

abbrev any_cast : {A : Type 0} → Option A → Outcome A
any_cast none = throws bad_any_cast
any_cast (some a) = ok a

module _ {A D E : Type 0} where
  -- `InitAny<D>()` and `InitAny<D>(type)`: `d` is the default `D`.
  unfoldable pub init_any : D → StreamBuffer A D E → StreamBuffer A D E
  init_any d s = record s { parsed_data = some d }

  unfoldable pub init_any_type : D → ℕ → StreamBuffer A D E → StreamBuffer A D E
  init_any_type d type s = record s { parsed_data = some d; parsed_data_type = some type }

  unfoldable pub init_any_b : E → StreamBuffer A D E → StreamBuffer A D E
  init_any_b e s = record s { parsed_data_b = some e }

  unfoldable pub get_any : StreamBuffer A D E → Outcome D
  get_any s = any_cast s.parsed_data

  unfoldable pub get_any_b : StreamBuffer A D E → Outcome E
  get_any_b s = any_cast s.parsed_data_b

  unfoldable pub set_any_type : ℕ → StreamBuffer A D E → StreamBuffer A D E
  set_any_type type s = record s { parsed_data_type = some type }

  unfoldable pub reset_any : StreamBuffer A D E → StreamBuffer A D E
  reset_any s = record s { parsed_data = none; parsed_data_b = none; parsed_data_type = none }

  unfoldable pub reset_any_b : StreamBuffer A D E → StreamBuffer A D E
  reset_any_b s = record s { parsed_data_b = none }

  -- `ResetAnyB<D>()`
  unfoldable pub reinit_any_b : E → StreamBuffer A D E → StreamBuffer A D E
  unfolding reset_any_b init_any_b
  reinit_any_b e s = init_any_b e (reset_any_b s)

  unfoldable pub clear : StreamBuffer A D E → StreamBuffer A D E
  unfolding reset_any
  clear s = record (reset_any s) { buffer = [] }

  unfoldable pub any_has_value : StreamBuffer A D E → Bool
  any_has_value s = has_value s.parsed_data

  unfoldable pub any_has_value_b : StreamBuffer A D E → Bool
  any_has_value_b s = has_value s.parsed_data_b
