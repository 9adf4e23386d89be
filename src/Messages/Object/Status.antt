-- ===== src/Messages/Object/Status.antt =====
-- `ObjectDatagramStatus`: the status of an object in a datagram.
pub mod RoundTrip
use libquicr.Prelude.{
  ℕ, zero, suc, ◌+◌, ◌%◌, ◌^◌, Bool, true, false, Option, none, some, List, [], ◌∷◌, Outcome, ok,
  throws, bad_optional_access, ◌>>=◌, ◌||◌,
}
use libquicr.StreamBuffer.{decode_uint_v}
use libquicr.CtrlTypes.{write_u64, write_u8}
use libquicr.Messages.Stage.{Parsed, need, read_byte}
use libquicr.Messages.Types.{status_has_extensions, datagram_status_type}
use libquicr.Messages.Extensions.{
  AllProgress, has_value, serialize_extensions, parse_all_extensions,
}
use libquicr.Messages.Object.{need_part, no_extensions, object_status}

-- `parsing` holds `extensions`, `immutable_extensions` and the three members of their parser.
pub record ObjectDatagramStatus : Type 0 where
  pub track_alias : ℕ
  pub group_id : ℕ
  pub object_id : ℕ
  pub priority : ℕ
  pub parsing : AllProgress
  pub status : ℕ
  pub type : Option ℕ
  pub current_pos : ℕ
  pub parse_completed : Bool

unfoldable pub case6 : List ℕ → ObjectDatagramStatus → Parsed ObjectDatagramStatus
case6 buffer msg = need (decode_uint_v true buffer) msg λ status rest. ok (
  true,
  rest,
  record msg {
    status = object_status status;
    current_pos = msg.current_pos + 1;
    parse_completed = true;
  },
)

unfoldable pub extensions_case : Bool → List ℕ → ObjectDatagramStatus → Parsed ObjectDatagramStatus
extensions_case true buffer msg =
    need_part (parse_all_extensions buffer msg.parsing) (λ p. record msg { parsing = p })
      λ rest msg. case6 rest (record msg { current_pos = msg.current_pos + 1 })
extensions_case false buffer msg =
    case6 buffer
      (record msg { parsing = no_extensions msg.parsing; current_pos = msg.current_pos + 1 })

-- `DatagramStatusProperties(msg.type.value())`
abbrev pub properties_of : Option ℕ → Outcome Bool
properties_of none = throws bad_optional_access
properties_of (some type) = status_has_extensions type

unfoldable pub case5 : List ℕ → ObjectDatagramStatus → Parsed ObjectDatagramStatus
case5 buffer msg =
    properties_of msg.type >>= λ has_extensions. extensions_case has_extensions buffer msg

unfoldable pub case4 : List ℕ → ObjectDatagramStatus → Parsed ObjectDatagramStatus
case4 buffer msg = need (read_byte buffer) msg λ priority rest.
    case5 rest (record msg { priority = priority; current_pos = msg.current_pos + 1 })

unfoldable pub case3 : List ℕ → ObjectDatagramStatus → Parsed ObjectDatagramStatus
case3 buffer msg = need (decode_uint_v true buffer) msg λ object_id rest.
    case4 rest (record msg { object_id = object_id; current_pos = msg.current_pos + 1 })

unfoldable pub case2 : List ℕ → ObjectDatagramStatus → Parsed ObjectDatagramStatus
case2 buffer msg = need (decode_uint_v true buffer) msg λ group_id rest.
    case3 rest (record msg { group_id = group_id; current_pos = msg.current_pos + 1 })

unfoldable pub case1 : List ℕ → ObjectDatagramStatus → Parsed ObjectDatagramStatus
case1 buffer msg = need (decode_uint_v true buffer) msg λ track_alias rest.
    case2 rest (record msg { track_alias = track_alias; current_pos = msg.current_pos + 1 })

unfoldable pub case0 : List ℕ → ObjectDatagramStatus → Parsed ObjectDatagramStatus
case0 buffer msg = need (decode_uint_v true buffer) msg λ type rest.
    case1 rest (record msg { type = some (type % 2 ^ 8); current_pos = msg.current_pos + 1 })

abbrev pub switch : ℕ → List ℕ → ObjectDatagramStatus → Parsed ObjectDatagramStatus
switch zero buffer msg = case0 buffer msg
switch (suc zero) buffer msg = case1 buffer msg
switch (suc (suc zero)) buffer msg = case2 buffer msg
switch (suc (suc (suc zero))) buffer msg = case3 buffer msg
switch (suc (suc (suc (suc zero)))) buffer msg = case4 buffer msg
switch (suc (suc (suc (suc (suc zero))))) buffer msg = case5 buffer msg
switch (suc (suc (suc (suc (suc (suc zero)))))) buffer msg = case6 buffer msg
switch _ buffer msg = ok (msg.parse_completed, buffer, msg)

unfoldable pub parse_datagram_status : List ℕ → ObjectDatagramStatus → Parsed ObjectDatagramStatus
parse_datagram_status buffer msg = switch msg.current_pos buffer msg

abbrev pub has_any : AllProgress → Bool
has_any p = has_value p.mutable.extensions || has_value p.immutable_extensions

abbrev pub write_extensions_if : Bool → AllProgress → List ℕ → Outcome (List ℕ)
write_extensions_if true p buffer =
    serialize_extensions p.mutable.extensions p.immutable_extensions buffer
write_extensions_if false p buffer = ok buffer

unfoldable pub serialize_datagram_status : ObjectDatagramStatus → List ℕ → Outcome (List ℕ)
serialize_datagram_status msg buffer = do
  b ← write_u64 (datagram_status_type (has_any msg.parsing)) buffer
  b ← write_u64 msg.track_alias b
  b ← write_u64 msg.group_id b
  b ← write_u64 msg.object_id b
  b ← write_extensions_if (has_any msg.parsing) msg.parsing (write_u8 msg.priority b)
  write_u64 (object_status msg.status) b
