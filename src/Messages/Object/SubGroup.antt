-- ===== src/Messages/Object/SubGroup.antt =====
-- `StreamSubGroupObject`: an object on the stream of a subgroup.
pub mod RoundTrip
use libquicr.Prelude.{
  ℕ, zero, suc, ◌+◌, Bool, true, false, Option, none, some, List, [], ◌∷◌, Outcome, ok, throws,
  undefined, ◌>>=◌, if◌then◌else◌, ◌==◌, ◌||◌, not,
}
use libquicr.StreamBuffer.{decode_uint_v}
use libquicr.CtrlTypes.{write_u64}
use libquicr.Messages.Stage.{Parsed, need}
use libquicr.Messages.Types.{stream_header_properties, StreamHeaderProperties}
use libquicr.Messages.Extensions.{
  Extensions, AllProgress, has_value, serialize_extensions, parse_all_extensions,
}
use libquicr.Messages.Object.{need_part, no_extensions, object_status, take_payload, write_payload}

-- `parsing` holds `extensions`, `immutable_extensions` and the three members of their parser.
pub record StreamSubGroupObject : Type 0 where
  pub object_delta : ℕ
  pub payload_len : ℕ
  pub object_status : ℕ
  pub parsing : AllProgress
  pub payload : List ℕ
  pub stream_type : Option ℕ
  pub current_pos : ℕ
  pub parse_completed : Bool

unfoldable pub case4 : List ℕ → StreamSubGroupObject → Parsed StreamSubGroupObject
case4 buffer msg =
    need (take_payload msg.payload_len buffer) msg
      λ payload rest. ok (true, rest, record msg { payload = payload; parse_completed = true })

unfoldable pub case3 : List ℕ → StreamSubGroupObject → Parsed StreamSubGroupObject
case3 buffer msg =
    if msg.payload_len == 0
    then (need (decode_uint_v true buffer) msg λ status rest.
        ok
          (true, rest, record msg { object_status = object_status status; parse_completed = true }))
    else case4 buffer (record msg { current_pos = msg.current_pos + 1 })

unfoldable pub case2 : List ℕ → StreamSubGroupObject → Parsed StreamSubGroupObject
case2 buffer msg = need (decode_uint_v true buffer) msg λ payload_len rest.
    case3 rest (record msg { payload_len = payload_len; current_pos = msg.current_pos + 1 })

unfoldable pub extensions_case : Bool → List ℕ → StreamSubGroupObject → Parsed StreamSubGroupObject
extensions_case true buffer msg =
    need_part (parse_all_extensions buffer msg.parsing) (λ p. record msg { parsing = p })
      λ rest msg. case2 rest (record msg { current_pos = msg.current_pos + 1 })
extensions_case false buffer msg =
    case2 buffer
      (record msg { parsing = no_extensions msg.parsing; current_pos = msg.current_pos + 1 })

-- A failed `assert` is undefined, as is `*stream_type` without a value.
abbrev pub properties_of : Option ℕ → Outcome StreamHeaderProperties
properties_of none = undefined
properties_of (some type) = stream_header_properties type

unfoldable pub case1 : List ℕ → StreamSubGroupObject → Parsed StreamSubGroupObject
case1 buffer msg = properties_of msg.stream_type >>= λ properties.
    extensions_case properties.may_contain_extensions buffer msg

unfoldable pub case0 : List ℕ → StreamSubGroupObject → Parsed StreamSubGroupObject
case0 buffer msg = need (decode_uint_v true buffer) msg λ object_delta rest.
    case1 rest (record msg { object_delta = object_delta; current_pos = msg.current_pos + 1 })

abbrev pub switch : ℕ → List ℕ → StreamSubGroupObject → Parsed StreamSubGroupObject
switch zero buffer msg = case0 buffer msg
switch (suc zero) buffer msg = case1 buffer msg
switch (suc (suc zero)) buffer msg = case2 buffer msg
switch (suc (suc (suc zero))) buffer msg = case3 buffer msg
switch (suc (suc (suc (suc zero)))) buffer msg = case4 buffer msg
switch _ buffer msg = ok (msg.parse_completed, buffer, msg)

unfoldable pub parse_subgroup_object : List ℕ → StreamSubGroupObject → Parsed StreamSubGroupObject
parse_subgroup_object buffer msg = switch msg.current_pos buffer msg

-- A message that may have no extensions and has some fails an `assert`.
abbrev pub write_some_extensions :
    Bool → Option Extensions → Option Extensions → List ℕ → Outcome (List ℕ)
write_some_extensions true ext im buffer = serialize_extensions ext im buffer
write_some_extensions false ext im buffer =
    if has_value ext || has_value im then undefined else ok buffer

unfoldable pub serialize_subgroup_object : StreamSubGroupObject → List ℕ → Outcome (List ℕ)
serialize_subgroup_object msg buffer = do
  b ← write_u64 msg.object_delta buffer
  properties ← properties_of msg.stream_type
  b ←
      write_some_extensions properties.may_contain_extensions msg.parsing.mutable.extensions
        msg.parsing.immutable_extensions b
  write_payload msg.payload msg.object_status b
