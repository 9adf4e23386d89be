-- ===== src/Messages/Object/Fetch.antt =====
-- `FetchObject`: an object on the stream that answers a fetch.
pub mod RoundTrip
use libquicr.Prelude.{
  ℕ, zero, suc, ◌+◌, Bool, true, Option, none, some, List, [], ◌∷◌, Outcome, ok, ◌>>=◌,
  if◌then◌else◌, ◌==◌,
}
use libquicr.StreamBuffer.{decode_uint_v}
use libquicr.CtrlTypes.{write_u64, write_u8}
use libquicr.Messages.Stage.{Parsed, need, read_byte}
use libquicr.Messages.Extensions.{AllProgress, serialize_extensions, parse_all_extensions}
use libquicr.Messages.Object.{need_part, object_status, take_payload, write_payload}

-- `parsing` holds `extensions`, `immutable_extensions` and the three members of their parser.
pub record FetchObject : Type 0 where
  pub group_id : ℕ
  pub subgroup_id : ℕ
  pub object_id : ℕ
  pub publisher_priority : ℕ
  pub parsing : AllProgress
  pub payload_len : ℕ
  pub object_status : ℕ
  pub payload : List ℕ
  pub current_pos : ℕ
  pub parse_completed : Bool

unfoldable pub case7 : List ℕ → FetchObject → Parsed FetchObject
case7 buffer msg =
    need (take_payload msg.payload_len buffer) msg
      λ payload rest. ok (true, rest, record msg { payload = payload; parse_completed = true })

unfoldable pub case6 : List ℕ → FetchObject → Parsed FetchObject
case6 buffer msg =
    if msg.payload_len == 0
    then (need (decode_uint_v true buffer) msg λ status rest.
        ok
          (true, rest, record msg { object_status = object_status status; parse_completed = true }))
    else case7 buffer (record msg { current_pos = msg.current_pos + 1 })

unfoldable pub case5 : List ℕ → FetchObject → Parsed FetchObject
case5 buffer msg = need (decode_uint_v true buffer) msg λ payload_len rest.
    case6 rest (record msg { payload_len = payload_len; current_pos = msg.current_pos + 1 })

unfoldable pub case4 : List ℕ → FetchObject → Parsed FetchObject
case4 buffer msg =
    need_part (parse_all_extensions buffer msg.parsing) (λ p. record msg { parsing = p })
      λ rest msg. case5 rest (record msg { current_pos = msg.current_pos + 1 })

unfoldable pub case3 : List ℕ → FetchObject → Parsed FetchObject
case3 buffer msg = need (read_byte buffer) msg λ priority rest.
    case4 rest (record msg { publisher_priority = priority; current_pos = msg.current_pos + 1 })

unfoldable pub case2 : List ℕ → FetchObject → Parsed FetchObject
case2 buffer msg = need (decode_uint_v true buffer) msg λ object_id rest.
    case3 rest (record msg { object_id = object_id; current_pos = msg.current_pos + 1 })

unfoldable pub case1 : List ℕ → FetchObject → Parsed FetchObject
case1 buffer msg = need (decode_uint_v true buffer) msg λ subgroup_id rest.
    case2 rest (record msg { subgroup_id = subgroup_id; current_pos = msg.current_pos + 1 })

unfoldable pub case0 : List ℕ → FetchObject → Parsed FetchObject
case0 buffer msg = need (decode_uint_v true buffer) msg λ group_id rest.
    case1 rest (record msg { group_id = group_id; current_pos = msg.current_pos + 1 })

abbrev pub switch : ℕ → List ℕ → FetchObject → Parsed FetchObject
switch zero buffer msg = case0 buffer msg
switch (suc zero) buffer msg = case1 buffer msg
switch (suc (suc zero)) buffer msg = case2 buffer msg
switch (suc (suc (suc zero))) buffer msg = case3 buffer msg
switch (suc (suc (suc (suc zero)))) buffer msg = case4 buffer msg
switch (suc (suc (suc (suc (suc zero))))) buffer msg = case5 buffer msg
switch (suc (suc (suc (suc (suc (suc zero)))))) buffer msg = case6 buffer msg
switch (suc (suc (suc (suc (suc (suc (suc zero))))))) buffer msg = case7 buffer msg
switch _ buffer msg = ok (msg.parse_completed, buffer, msg)

unfoldable pub parse_fetch_object : List ℕ → FetchObject → Parsed FetchObject
parse_fetch_object buffer msg = switch msg.current_pos buffer msg

unfoldable pub serialize_fetch_object : FetchObject → List ℕ → Outcome (List ℕ)
serialize_fetch_object msg buffer = do
  b ← write_u64 msg.group_id buffer
  b ← write_u64 msg.subgroup_id b
  b ← write_u64 msg.object_id b
  let b = write_u8 msg.publisher_priority b
  b ← serialize_extensions msg.parsing.mutable.extensions msg.parsing.immutable_extensions b
  write_payload msg.payload msg.object_status b
