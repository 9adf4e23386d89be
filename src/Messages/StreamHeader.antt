-- ===== src/Messages/StreamHeader.antt =====
-- `StreamHeaderSubGroup`: its parser and its serialisation.
pub mod Resume
pub mod RoundTrip
use libquicr.Prelude.{
  ℕ, zero, suc, ◌+◌, ◌%◌, ◌^◌, Bool, true, Option, none, some, List, [], ◌∷◌, ◌++◌, Outcome, ok,
  throws, invalid_argument, ◌>>=◌,
}
use libquicr.StreamBuffer.{decode_uint_v}
use libquicr.CtrlTypes.{write_u64, write_u8}
use libquicr.Messages.Types.{
  SubgroupIdType, is_zero, set_from_first_object, explicit, stream_header_properties,
}
use libquicr.Messages.Stage.{Parsed, need, read_byte}

pub record StreamHeaderSubGroup : Type 0 where
  pub type : ℕ
  pub track_alias : ℕ
  pub group_id : ℕ
  pub subgroup_id : Option ℕ
  pub priority : ℕ
  pub current_pos : ℕ
  pub parse_completed : Bool

unfoldable pub case4 : List ℕ → StreamHeaderSubGroup → Parsed StreamHeaderSubGroup
case4 buffer msg = need (read_byte buffer) msg λ priority rest. ok (
  true,
  rest,
  record msg { priority = priority; current_pos = msg.current_pos + 1; parse_completed = true },
)

unfoldable pub subgroup_case :
    SubgroupIdType → List ℕ → StreamHeaderSubGroup → Parsed StreamHeaderSubGroup
subgroup_case is_zero buffer msg =
    case4 buffer (record msg { subgroup_id = some 0; current_pos = msg.current_pos + 1 })
subgroup_case set_from_first_object buffer msg =
    case4 buffer (record msg { subgroup_id = none; current_pos = msg.current_pos + 1 })
subgroup_case explicit buffer msg = need (decode_uint_v true buffer) msg λ subgroup_id rest.
    case4 rest (record msg { subgroup_id = some subgroup_id; current_pos = msg.current_pos + 1 })

unfoldable pub case3 : List ℕ → StreamHeaderSubGroup → Parsed StreamHeaderSubGroup
case3 buffer msg = do
  properties ← stream_header_properties msg.type
  subgroup_case properties.subgroup_id_type buffer msg

unfoldable pub case2 : List ℕ → StreamHeaderSubGroup → Parsed StreamHeaderSubGroup
case2 buffer msg = need (decode_uint_v true buffer) msg λ group_id rest.
    case3 rest (record msg { group_id = group_id; current_pos = msg.current_pos + 1 })

unfoldable pub case1 : List ℕ → StreamHeaderSubGroup → Parsed StreamHeaderSubGroup
case1 buffer msg = need (decode_uint_v true buffer) msg λ track_alias rest.
    case2 rest (record msg { track_alias = track_alias; current_pos = msg.current_pos + 1 })

unfoldable pub case0 : List ℕ → StreamHeaderSubGroup → Parsed StreamHeaderSubGroup
case0 buffer msg =
    need (decode_uint_v true buffer) msg λ type rest.
      case1 rest (record msg { type = type % 2 ^ 8; current_pos = msg.current_pos + 1 })

abbrev pub switch : ℕ → List ℕ → StreamHeaderSubGroup → Parsed StreamHeaderSubGroup
switch zero buffer msg = case0 buffer msg
switch (suc zero) buffer msg = case1 buffer msg
switch (suc (suc zero)) buffer msg = case2 buffer msg
switch (suc (suc (suc zero))) buffer msg = case3 buffer msg
switch (suc (suc (suc (suc zero)))) buffer msg = case4 buffer msg
switch _ buffer msg = ok (msg.parse_completed, buffer, msg)

unfoldable pub parse_stream_header : List ℕ → StreamHeaderSubGroup → Parsed StreamHeaderSubGroup
parse_stream_header buffer msg = switch msg.current_pos buffer msg

-- The subgroup id is written just when the type says that it is explicit.
unfoldable pub write_subgroup_id : SubgroupIdType → Option ℕ → List ℕ → Outcome (List ℕ)
write_subgroup_id explicit none buffer = throws invalid_argument
write_subgroup_id explicit (some id) buffer = write_u64 id buffer
write_subgroup_id _ none buffer = ok buffer
write_subgroup_id _ (some id) buffer = throws invalid_argument

unfoldable pub serialize_stream_header : StreamHeaderSubGroup → List ℕ → Outcome (List ℕ)
serialize_stream_header msg buffer = do
  b ← write_u64 msg.type buffer
  b ← write_u64 msg.track_alias b
  b ← write_u64 msg.group_id b
  properties ← stream_header_properties msg.type
  b ← write_subgroup_id properties.subgroup_id_type msg.subgroup_id b
  ok (write_u8 msg.priority b)
