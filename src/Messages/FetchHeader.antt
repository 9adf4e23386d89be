-- ===== src/Messages/FetchHeader.antt =====
-- `FetchHeader`: its parser and its serialisation.
use libquicr.Prelude.{
  ℕ, zero, suc, ◌+◌, ◌%◌, ◌^◌, ◌<◌, ◌≡◌, refl, Bool, true, false, List, [], ◌++◌, append_assoc,
  Outcome, ok, ◌>>=◌, arith,
}
use libquicr.StreamBuffer.{decode_uint_v}
use libquicr.StreamBuffer.Decode.{decode_uint_v-IsStable}
use libquicr.StreamBuffer.RoundTrip.{decode_uint_v-wire}
use libquicr.UintVar.Wire.{wire}
use libquicr.CtrlTypes.{write_u64}
use libquicr.CtrlTypes.Ints.{write_u64-wire}
use libquicr.Messages.Stage.{Parsed, need, Resumes, need-Resumes, done-Resumes}

pub record FetchHeader : Type 0 where
  pub type : ℕ
  pub request_id : ℕ
  pub current_pos : ℕ
  pub parse_completed : Bool

unfoldable pub case1 : List ℕ → FetchHeader → Parsed FetchHeader
case1 buffer msg = need (decode_uint_v true buffer) msg λ request_id rest. ok (
  true,
  rest,
  record msg { request_id = request_id; current_pos = msg.current_pos + 1; parse_completed = true },
)

unfoldable pub case0 : List ℕ → FetchHeader → Parsed FetchHeader
case0 buffer msg =
    need (decode_uint_v true buffer) msg λ type rest.
      case1 rest (record msg { type = type % 2 ^ 8; current_pos = msg.current_pos + 1 })

abbrev switch : ℕ → List ℕ → FetchHeader → Parsed FetchHeader
switch zero buffer msg = case0 buffer msg
switch (suc zero) buffer msg = case1 buffer msg
switch _ buffer msg = ok (msg.parse_completed, buffer, msg)

unfoldable pub parse_fetch_header : List ℕ → FetchHeader → Parsed FetchHeader
parse_fetch_header buffer msg = switch msg.current_pos buffer msg

unfoldable pub serialize_fetch_header : FetchHeader → List ℕ → Outcome (List ℕ)
serialize_fetch_header msg buffer = do b ← write_u64 msg.type buffer; write_u64 msg.request_id b

case1-Resumes :
    (b more : List ℕ) (m : FetchHeader)
    → m.current_pos ≡ 1
    → Resumes parse_fetch_header more (case1 b m) (case1 (b ++ more) m)
unfolding case1
case1-Resumes b more m e =
    need-Resumes parse_fetch_header more (decode_uint_v true) b m _ (decode_uint_v-IsStable b)
      (unfold parse_fetch_header case1 in rw e) λ a rest. refl

case0-Resumes :
    (b more : List ℕ) (m : FetchHeader)
    → m.current_pos ≡ 0
    → Resumes parse_fetch_header more (case0 b m) (case0 (b ++ more) m)
unfolding case0
case0-Resumes b more m e =
    need-Resumes parse_fetch_header more (decode_uint_v true) b m _ (decode_uint_v-IsStable b)
      (unfold parse_fetch_header case0 in rw e) λ a rest. case1-Resumes rest more _ (rw e)

switch-Resumes :
    (n : ℕ) (b more : List ℕ) (m : FetchHeader)
    → m.current_pos ≡ n
    → Resumes parse_fetch_header more (switch n b m) (switch n (b ++ more) m)
switch-Resumes zero b more m e = case0-Resumes b more m e
switch-Resumes (suc zero) b more m e = case1-Resumes b more m e
switch-Resumes (suc (suc n)) b more m e =
    done-Resumes parse_fetch_header m.parse_completed b more m
      (λ b. unfold parse_fetch_header in rw e)

-- The parser may be given a message in pieces: whatever it did with the first bytes, with more bytes
-- behind them it does what it would have done with all of them at once.
pub parse_fetch_header-Resumes :
    (b more : List ℕ) (m : FetchHeader)
    → Resumes parse_fetch_header more (parse_fetch_header b m) (parse_fetch_header (b ++ more) m)
unfolding parse_fetch_header
parse_fetch_header-Resumes b more m = switch-Resumes m.current_pos b more m refl

abbrev pub fresh : ℕ → ℕ → FetchHeader
fresh type request_id = record {
  type = type;
  request_id = request_id;
  current_pos = 0;
  parse_completed = false;
}

-- A header of a type below 2^8 and a request id below 2^62 that is serialised is parsed, from the
-- start of a parse, to its type and request id, and the bytes behind it are left.
pub parse_fetch_header-serialize_fetch_header :
    (type request_id : ℕ) (m : FetchHeader) (rest : List ℕ)
    → type < 2 ^ 8
    → request_id < 2 ^ 62
    → m.current_pos ≡ 0
    → (do b ← serialize_fetch_header (fresh type request_id) []; parse_fetch_header (b ++ rest) m)
      ≡ ok (
        true,
        rest,
        record { type = type; request_id = request_id; current_pos = 2; parse_completed = true },
      )
unfolding serialize_fetch_header parse_fetch_header case0 case1
parse_fetch_header-serialize_fetch_header type request_id m rest ht hr e = rw (
  write_u64-wire type [] (omega arith),
  write_u64-wire request_id (wire type) hr,
  append_assoc,
  e,
  decode_uint_v-wire type (wire request_id ++ rest) (omega arith),
  decode_uint_v-wire request_id rest hr,
  byte,
)
  where
    byte : type % 2 ^ 8 ≡ type
    byte = omega arith
