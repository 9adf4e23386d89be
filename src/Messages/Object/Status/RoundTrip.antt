-- ===== src/Messages/Object/Status/RoundTrip.antt =====
-- Object statuses in datagrams that are serialised are parsed again.
use libquicr.Prelude.{
  ℕ, ◌%◌, ◌^◌, ◌<◌, ◌≡◌, refl, ◌∙◌, Bool, true, false, some, List, [], ◌++◌, append_assoc,
  append-nil, ok, ◌>>=◌, arith,
}
use libquicr.UintVar.Wire.{wire}
use libquicr.CtrlTypes.{write_u8}
use libquicr.CtrlTypes.Ints.{write_u64-wire}
use libquicr.StreamBuffer.RoundTrip.{decode_uint_v-wire}
use libquicr.Messages.Stage.{read_byte}
use libquicr.Messages.Types.{status_has_extensions, datagram_status_type}
use libquicr.Messages.Extensions.{AllProgress}
use libquicr.Messages.Extensions.Both.{
  ExtensionsFit, all_start, serialize_extensions-wire, parse_all_extensions-wire,
}
use libquicr.Messages.Object.{object_status}
use libquicr.Messages.Object.Wire.{received_some, some_wire}
use libquicr.Messages.Object.Status.{
  ObjectDatagramStatus, case0, case1, case2, case3, case4, case5, case6, extensions_case, has_any,
  write_extensions_if, parse_datagram_status, serialize_datagram_status,
}

abbrev any_wire : AllProgress → List ℕ
any_wire p = some_wire (has_any p) p.mutable.extensions p.immutable_extensions

write_extensions_if-wire :
    (has : Bool) (p : AllProgress) (b : List ℕ)
    → ExtensionsFit p.mutable.extensions p.immutable_extensions
    → write_extensions_if has p b
      ≡ ok (b ++ some_wire has p.mutable.extensions p.immutable_extensions)
unfolding some_wire
write_extensions_if-wire true p b h =
    serialize_extensions-wire p.mutable.extensions p.immutable_extensions b h
write_extensions_if-wire false p b h = rw append-nil refl

status_type_lem :
    (has : Bool)
    → (datagram_status_type has < 6) × (status_has_extensions (datagram_status_type has) ≡ ok has)
unfolding status_has_extensions datagram_status_type
status_type_lem has = ground arith

-- The status as it is received by a message that has just begun.
abbrev pub received_status : ObjectDatagramStatus → ObjectDatagramStatus → ObjectDatagramStatus
received_status o m = record m {
  track_alias = o.track_alias;
  group_id = o.group_id;
  object_id = o.object_id;
  priority = o.priority;
  parsing =
      received_some (has_any o.parsing) o.parsing.mutable.extensions o.parsing.immutable_extensions;
  status = o.status;
  type = some (datagram_status_type (has_any o.parsing));
  current_pos = 7;
  parse_completed = true;
}

case6-wire :
    (status : ℕ) (m : ObjectDatagramStatus) (rest : List ℕ)
    → m.current_pos ≡ 6
    → status < 2 ^ 8
    → case6 (wire status ++ rest) m
      ≡ ok (true, rest, record m { status = status; current_pos = 7; parse_completed = true })
unfolding case6
case6-wire status m rest at h =
    let small : object_status status ≡ status = omega (arith, h) in
    rw (decode_uint_v-wire status rest (omega (arith, h)), small, at) refl

extensions_case-wire :
    (has : Bool) (p : AllProgress) (b : List ℕ) (m : ObjectDatagramStatus)
    → m.current_pos ≡ 5
    → m.parsing ≡ all_start
    → ExtensionsFit p.mutable.extensions p.immutable_extensions
    → extensions_case has (some_wire has p.mutable.extensions p.immutable_extensions ++ b) m
      ≡ case6 b (record m {
        parsing = received_some has p.mutable.extensions p.immutable_extensions;
        current_pos = 6;
      })
unfolding extensions_case some_wire
extensions_case-wire true p b m at fresh h =
    let ext = p.mutable.extensions in
    let im = p.immutable_extensions in
    rw (append_assoc, fresh, parse_all_extensions-wire ext im b h, at) refl
extensions_case-wire false p b m at fresh h = rw (fresh, at) refl

case5-wire :
    (p : AllProgress) (status : ℕ) (m : ObjectDatagramStatus) (rest : List ℕ)
    → m.type ≡ some (datagram_status_type (has_any p))
    → m.current_pos ≡ 5
    → m.parsing ≡ all_start
    → ExtensionsFit p.mutable.extensions p.immutable_extensions
    → status < 2 ^ 8
    → case5 (any_wire p ++ (wire status ++ rest)) m
      ≡ ok (
        true,
        rest,
        record m {
          parsing = received_some (has_any p) p.mutable.extensions p.immutable_extensions;
          status = status;
          type = some (datagram_status_type (has_any p));
          current_pos = 7;
          parse_completed = true;
        },
      )
unfolding case5
case5-wire p status m rest t at fresh h small =
    let type = some (datagram_status_type (has_any p)) in
    rw (t, (status_type_lem (has_any p)).1)
      (extensions_case-wire (has_any p) p (wire status ++ rest) (record m { type = type }) at fresh
          h
        ∙ case6-wire status
            (record m {
              parsing = received_some (has_any p) p.mutable.extensions p.immutable_extensions;
              type = type;
              current_pos = 6;
            })
            rest refl small)

-- The status of an object that is serialised is parsed again with its ids, its priority and what a
-- receiver makes of its extensions, and what follows is left, when the extensions fit, the ids are below 2^62 and the status
-- is below 2^8; a message that has no extensions is received with none.
pub parse_datagram_status-serialize_datagram_status :
    (o m : ObjectDatagramStatus) (rest : List ℕ)
    → ExtensionsFit o.parsing.mutable.extensions o.parsing.immutable_extensions
    → o.track_alias < 2 ^ 62
    → o.group_id < 2 ^ 62
    → o.object_id < 2 ^ 62
    → o.status < 2 ^ 8
    → m.current_pos ≡ 0
    → m.parsing ≡ all_start
    → (do b ← serialize_datagram_status o []; parse_datagram_status (b ++ rest) m)
      ≡ ok (true, rest, received_status o m)
unfolding serialize_datagram_status parse_datagram_status case0 case1 case2 case3 case4 write_u8
    read_byte
parse_datagram_status-serialize_datagram_status o m rest h ha hg ho hs at fresh =
    let type = datagram_status_type (has_any o.parsing) in
    let low = (status_type_lem (has_any o.parsing)).0 in
    let byte : type % 2 ^ 8 ≡ type = omega (arith, low) in
    let small : object_status o.status ≡ o.status = omega (arith, hs) in
    rw
      (
        write_u64-wire type [] (omega (arith, low)),
        write_u64-wire o.track_alias _ ha,
        write_u64-wire o.group_id _ hg,
        write_u64-wire o.object_id _ ho,
        write_extensions_if-wire (has_any o.parsing) o.parsing _ h,
        small,
        write_u64-wire o.status _ (omega (arith, hs)),
        append_assoc,
        append_assoc,
        append_assoc,
        append_assoc,
        append_assoc,
        append_assoc,
        at,
        decode_uint_v-wire type _ (omega (arith, low)),
        byte,
        decode_uint_v-wire o.track_alias _ ha,
        decode_uint_v-wire o.group_id _ hg,
        decode_uint_v-wire o.object_id _ ho,
      )
      (case5-wire o.parsing o.status
        (record m {
          track_alias = o.track_alias;
          group_id = o.group_id;
          object_id = o.object_id;
          priority = o.priority;
          type = some type;
          current_pos = 5;
        })
        rest refl refl fresh h hs)
