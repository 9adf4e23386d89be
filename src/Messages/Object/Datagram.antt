-- ===== src/Messages/Object/Datagram.antt =====
-- `ObjectDatagram`: an object in a datagram.
pub mod RoundTrip
use libquicr.Prelude.{
  ℕ, zero, suc, ◌+◌, ◌%◌, ◌^◌, Bool, true, false, Option, none, some, List, [], ◌∷◌, Outcome, ok,
  undefined, throws, bad_optional_access, ◌>>=◌, if◌then◌else◌, ◌==◌, ◌||◌, length,
}
use libquicr.UintVar.{encode}
use libquicr.StreamBuffer.{decode_uint_v, empty, available, front_n, pop_n, push}
use libquicr.CtrlTypes.{write_u64, write_u8}
use libquicr.Messages.Stage.{Parsed, need, read_byte}
use libquicr.Messages.Types.{
  DatagramHeaderProperties, datagram_header_properties, datagram_header_type,
}
use libquicr.Messages.Extensions.{
  AllProgress, has_value, serialize_extensions, parse_all_extensions,
}
use libquicr.Messages.Object.{need_part, no_extensions}

-- `parsing` holds `extensions`, `immutable_extensions` and the three members of their parser.
pub record ObjectDatagram : Type 0 where
  pub track_alias : ℕ
  pub group_id : ℕ
  pub object_id : ℕ
  pub priority : ℕ
  pub parsing : AllProgress
  pub payload_len : ℕ
  pub payload : List ℕ
  pub end_of_group : Bool
  pub type : Option ℕ
  pub current_pos : ℕ
  pub parse_completed : Bool

unfoldable pub get_type : ObjectDatagram → ℕ
get_type msg = datagram_header_type (record {
  end_of_group = msg.end_of_group;
  has_extensions =
      has_value msg.parsing.mutable.extensions || has_value msg.parsing.immutable_extensions;
})

-- `Front` and `Pop` are called whatever `Front` gives.
unfoldable pub case6 : List ℕ → ObjectDatagram → Parsed ObjectDatagram
case6 buffer msg =
    if msg.payload_len == 0
    then ok (true, buffer, record msg { parse_completed = true })
    else if available msg.payload_len buffer
    then ok (
      true,
      pop_n msg.payload_len buffer,
      record msg { payload = front_n msg.payload_len buffer; parse_completed = true },
    )
    else ok (false, buffer, msg)

unfoldable pub rest_case : List ℕ → ObjectDatagram → Parsed ObjectDatagram
rest_case buffer msg =
    case6 buffer (record msg { current_pos = msg.current_pos + 1; payload_len = length buffer })

unfoldable pub extensions_case : Bool → List ℕ → ObjectDatagram → Parsed ObjectDatagram
extensions_case true buffer msg =
    need_part (parse_all_extensions buffer msg.parsing) (λ p. record msg { parsing = p }) rest_case
extensions_case false buffer msg =
    rest_case buffer (record msg { parsing = no_extensions msg.parsing })

-- `msg.type.value()`
abbrev pub properties_of : Option ℕ → Outcome DatagramHeaderProperties
properties_of none = throws bad_optional_access
properties_of (some type) = datagram_header_properties type

unfoldable pub case5 : List ℕ → ObjectDatagram → Parsed ObjectDatagram
case5 buffer msg =
    properties_of msg.type >>= λ properties. extensions_case properties.has_extensions buffer msg

unfoldable pub case4 : List ℕ → ObjectDatagram → Parsed ObjectDatagram
case4 buffer msg = need (read_byte buffer) msg λ priority rest.
    case5 rest (record msg { priority = priority; current_pos = msg.current_pos + 1 })

unfoldable pub case3 : List ℕ → ObjectDatagram → Parsed ObjectDatagram
case3 buffer msg = need (decode_uint_v true buffer) msg λ object_id rest.
    case4 rest (record msg { object_id = object_id; current_pos = msg.current_pos + 1 })

unfoldable pub case2 : List ℕ → ObjectDatagram → Parsed ObjectDatagram
case2 buffer msg = need (decode_uint_v true buffer) msg λ group_id rest.
    case3 rest (record msg { group_id = group_id; current_pos = msg.current_pos + 1 })

unfoldable pub case1 : List ℕ → ObjectDatagram → Parsed ObjectDatagram
case1 buffer msg = need (decode_uint_v true buffer) msg λ track_alias rest.
    case2 rest (record msg { track_alias = track_alias; current_pos = msg.current_pos + 1 })

unfoldable pub case0 : List ℕ → ObjectDatagram → Parsed ObjectDatagram
case0 buffer msg = need (decode_uint_v true buffer) msg λ type rest. do
  properties ← datagram_header_properties (type % 2 ^ 8)
  case1 rest (record msg {
    type = some (type % 2 ^ 8);
    end_of_group = properties.end_of_group;
    current_pos = msg.current_pos + 1;
  })

abbrev pub switch : ℕ → List ℕ → ObjectDatagram → Parsed ObjectDatagram
switch zero buffer msg = case0 buffer msg
switch (suc zero) buffer msg = case1 buffer msg
switch (suc (suc zero)) buffer msg = case2 buffer msg
switch (suc (suc (suc zero))) buffer msg = case3 buffer msg
switch (suc (suc (suc (suc zero)))) buffer msg = case4 buffer msg
switch (suc (suc (suc (suc (suc zero))))) buffer msg = case5 buffer msg
switch (suc (suc (suc (suc (suc (suc zero)))))) buffer msg = case6 buffer msg
switch _ buffer msg = ok (msg.parse_completed, buffer, msg)

unfoldable pub parse_object_datagram : List ℕ → ObjectDatagram → Parsed ObjectDatagram
parse_object_datagram buffer msg = switch msg.current_pos buffer msg

-- Extensions are written just when there are some.
unfoldable pub write_any_extensions : AllProgress → List ℕ → Outcome (List ℕ)
write_any_extensions p buffer =
    if has_value p.mutable.extensions || has_value p.immutable_extensions
    then serialize_extensions p.mutable.extensions p.immutable_extensions buffer
    else ok buffer

unfoldable pub serialize_object_datagram : ObjectDatagram → List ℕ → Outcome (List ℕ)
serialize_object_datagram msg buffer = do
  b ← write_u64 (get_type msg) buffer
  b ← write_u64 msg.track_alias b
  b ← write_u64 msg.group_id b
  b ← write_u64 msg.object_id b
  b ← write_any_extensions msg.parsing (write_u8 msg.priority b)
  ok (if empty msg.payload then b else push msg.payload b)
