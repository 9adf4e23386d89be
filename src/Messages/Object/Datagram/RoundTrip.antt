-- ===== src/Messages/Object/Datagram/RoundTrip.antt =====
-- Objects in datagrams that are serialised are parsed again.
use libquicr.Prelude.{
  ℕ, suc, ◌%◌, ◌^◌, ◌<◌, ◌≡◌, refl, sym, Bool, true, false, some, List, [], ◌∷◌, ◌++◌, append_assoc,
  append-nil, ok, ◌>>=◌, arith, length, ◌==◌, ◌||◌, if◌then◌else◌,
}
use libquicr.CtrlTypes.{write_u8}
use libquicr.CtrlTypes.Ints.{write_u64-wire}
use libquicr.StreamBuffer.RoundTrip.{decode_uint_v-wire}
use libquicr.StreamBuffer.{empty, push}
use libquicr.Messages.Stage.{read_byte}
use libquicr.Messages.Types.{datagram_header_properties, datagram_header_type}
use libquicr.Messages.Extensions.{AllProgress, has_value, serialize_extensions}
use libquicr.Messages.Extensions.Both.{
  ExtensionsFit, all_start, serialize_extensions-wire, parse_all_extensions-wire,
}
use libquicr.Messages.Object.Wire.{received_some, some_wire, take_whole}
use libquicr.Messages.Object.Datagram.{
  ObjectDatagram, case0, case1, case2, case3, case4, case5, case6, get_type, extensions_case,
  rest_case, write_any_extensions, parse_object_datagram, serialize_object_datagram,
}

abbrev pub has_any : AllProgress → Bool
has_any p = has_value p.mutable.extensions || has_value p.immutable_extensions

abbrev any_wire : AllProgress → List ℕ
any_wire p = some_wire (has_any p) p.mutable.extensions p.immutable_extensions

abbrev pub received_any : AllProgress → AllProgress
received_any p = received_some (has_any p) p.mutable.extensions p.immutable_extensions

write_any_lem :
    (has : Bool) (p : AllProgress) (b : List ℕ)
    → ExtensionsFit p.mutable.extensions p.immutable_extensions
    → (if has then serialize_extensions p.mutable.extensions p.immutable_extensions b else ok b)
      ≡ ok (b ++ some_wire has p.mutable.extensions p.immutable_extensions)
unfolding some_wire
write_any_lem true p b h = serialize_extensions-wire p.mutable.extensions p.immutable_extensions b h
write_any_lem false p b h = rw append-nil refl

write_any_extensions-wire :
    (p : AllProgress) (b : List ℕ)
    → ExtensionsFit p.mutable.extensions p.immutable_extensions
    → write_any_extensions p b ≡ ok (b ++ any_wire p)
unfolding write_any_extensions
write_any_extensions-wire p b h = write_any_lem (has_any p) p b h

datagram_type_lem :
    (e has : Bool)
    → let t = datagram_header_type (record { end_of_group = e; has_extensions = has }) in
      (t < 4)
      × (datagram_header_properties t ≡ ok (record { end_of_group = e; has_extensions = has }))
unfolding datagram_header_type datagram_header_properties
datagram_type_lem e has = ground arith

get_type_lem :
    (o : ObjectDatagram)
    → (get_type o < 4)
      × (datagram_header_properties (get_type o)
          ≡ ok (record { end_of_group = o.end_of_group; has_extensions = has_any o.parsing }))
unfolding get_type
get_type_lem o = datagram_type_lem o.end_of_group (has_any o.parsing)

push_any : (payload b : List ℕ) → (if empty payload then b else push payload b) ≡ b ++ payload
push_any [] b = sym (append-nil b)
push_any (x ∷ xs) b = refl

-- The message when the payload has been read.
abbrev pub at_end : List ℕ → ObjectDatagram → ObjectDatagram
at_end [] m = record m { payload_len = 0; current_pos = 6; parse_completed = true }
at_end (x ∷ xs) m = record m {
  payload_len = length (x ∷ xs);
  payload = x ∷ xs;
  current_pos = 6;
  parse_completed = true;
}

-- The object as it is received by a message that has just begun.
abbrev pub received_datagram : ObjectDatagram → ObjectDatagram → ObjectDatagram
received_datagram o m = at_end o.payload (record m {
  track_alias = o.track_alias;
  group_id = o.group_id;
  object_id = o.object_id;
  priority = o.priority;
  parsing = received_any o.parsing;
  end_of_group = o.end_of_group;
  type = some (get_type o);
  current_pos = 5;
})

rest_case-wire :
    (payload : List ℕ) (m : ObjectDatagram)
    → m.current_pos ≡ 5
    → length payload < 2 ^ 32
    → rest_case payload m ≡ ok (true, [], at_end payload m)
unfolding rest_case case6
rest_case-wire [] m at h = rw at refl
rest_case-wire (x ∷ xs) m at h =
    let more : (suc (length xs) == 0) ≡ false = ground arith in
    let (there, all_bytes, none_left) = take_whole x xs h in
    rw (more, there) (rw (all_bytes, none_left, at) refl)

extensions_case-wire :
    (has : Bool) (p : AllProgress) (payload : List ℕ) (m : ObjectDatagram)
    → m.current_pos ≡ 5
    → m.parsing ≡ all_start
    → ExtensionsFit p.mutable.extensions p.immutable_extensions
    → length payload < 2 ^ 32
    → extensions_case has (some_wire has p.mutable.extensions p.immutable_extensions ++ payload) m
      ≡ ok (
        true,
        [],
        at_end payload
            (record m { parsing = received_some has p.mutable.extensions p.immutable_extensions }),
      )
unfolding extensions_case some_wire
extensions_case-wire true p payload m at fresh h l =
    let ext = p.mutable.extensions in
    let im = p.immutable_extensions in
    rw (append_assoc, fresh, parse_all_extensions-wire ext im payload h)
      (rest_case-wire payload (record m { parsing = received_some true ext im }) at l)
extensions_case-wire false p payload m at fresh h l =
    rw fresh (rest_case-wire payload (record m { parsing = all_start }) at l)

case5-wire :
    (o : ObjectDatagram) (m : ObjectDatagram)
    → m.type ≡ some (get_type o)
    → m.current_pos ≡ 5
    → m.parsing ≡ all_start
    → ExtensionsFit o.parsing.mutable.extensions o.parsing.immutable_extensions
    → length o.payload < 2 ^ 32
    → case5 (any_wire o.parsing ++ o.payload) m
      ≡ ok (true, [], at_end o.payload (record m { parsing = received_any o.parsing }))
unfolding case5
case5-wire o m t at fresh h l =
    rw (t, (get_type_lem o).1)
      (extensions_case-wire (has_any o.parsing) o.parsing o.payload
        (record m { type = some (get_type o) }) at fresh h l)

-- An object that is serialised into a datagram of its own is parsed again with its type, its ids, its
-- priority, its payload and what a receiver makes of its extensions, when those fit, its ids are below 2^62 and its payload is
-- shorter than 2^32; a message that has no extensions is received with none.
pub parse_object_datagram-serialize_object_datagram :
    (o m : ObjectDatagram)
    → ExtensionsFit o.parsing.mutable.extensions o.parsing.immutable_extensions
    → o.track_alias < 2 ^ 62
    → o.group_id < 2 ^ 62
    → o.object_id < 2 ^ 62
    → length o.payload < 2 ^ 32
    → m.current_pos ≡ 0
    → m.parsing ≡ all_start
    → (do b ← serialize_object_datagram o []; parse_object_datagram b m)
      ≡ ok (true, [], received_datagram o m)
unfolding serialize_object_datagram parse_object_datagram case0 case1 case2 case3 case4 write_u8
    read_byte
parse_object_datagram-serialize_object_datagram o m h ha hg ho hl at fresh =
    let (small, known) = get_type_lem o in
    let byte : get_type o % 2 ^ 8 ≡ get_type o = omega (arith, small) in
    rw
      (
        write_u64-wire (get_type o) [] (omega (arith, small)),
        write_u64-wire o.track_alias _ ha,
        write_u64-wire o.group_id _ hg,
        write_u64-wire o.object_id _ ho,
        write_any_extensions-wire o.parsing _ h,
        push_any o.payload,
        append_assoc,
        append_assoc,
        append_assoc,
        append_assoc,
        append_assoc,
        at,
        decode_uint_v-wire (get_type o) _ (omega (arith, small)),
        byte,
        known,
        decode_uint_v-wire o.track_alias _ ha,
        decode_uint_v-wire o.group_id _ hg,
        decode_uint_v-wire o.object_id _ ho,
      )
      (case5-wire o
        (record m {
          track_alias = o.track_alias;
          group_id = o.group_id;
          object_id = o.object_id;
          priority = o.priority;
          end_of_group = o.end_of_group;
          type = some (get_type o);
          current_pos = 5;
        })
        refl refl fresh h hl)
