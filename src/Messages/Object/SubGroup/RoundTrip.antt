-- ===== src/Messages/Object/SubGroup/RoundTrip.antt =====
-- Objects on a stream that are serialised are parsed again.
use libquicr.Prelude.{
  ℕ, suc, ◌^◌, ◌<◌, ◌≡◌, refl, Bool, true, false, Option, none, some, List, [], ◌∷◌, ◌++◌,
  append_assoc, append-nil, ok, ◌>>=◌, arith, length, ◌==◌,
}
use libquicr.UintVar.Wire.{wire}
use libquicr.CtrlTypes.Ints.{write_u64-wire}
use libquicr.StreamBuffer.RoundTrip.{decode_uint_v-wire}
use libquicr.Messages.Types.{stream_header_properties, StreamHeaderProperties}
use libquicr.Messages.Extensions.{Extensions, AllProgress}
use libquicr.Messages.Extensions.Both.{
  ExtensionsFit, all_start, serialize_extensions-wire, parse_all_extensions-wire,
}
use libquicr.Messages.Object.{object_status}
use libquicr.Messages.Object.Wire.{
  received_some, some_wire, payload_wire, write_payload-wire, take_payload-append,
  decode_uint_v_zero,
}
use libquicr.Messages.Object.SubGroup.{
  StreamSubGroupObject, case0, case1, case2, case3, case4, extensions_case, parse_subgroup_object,
  write_some_extensions, serialize_subgroup_object,
}

-- What a sender may put in an object of a type that has extensions, or has none.
abbrev pub MayHave : Bool → Option Extensions → Option Extensions → Type 0
MayHave true ext im = ExtensionsFit ext im
MayHave false ext im = (ext ≡ none) × (im ≡ none)

write_some_extensions-wire :
    (may : Bool) (ext im : Option Extensions) (b : List ℕ)
    → MayHave may ext im
    → write_some_extensions may ext im b ≡ ok (b ++ some_wire may ext im)
unfolding some_wire
write_some_extensions-wire true ext im b h = serialize_extensions-wire ext im b h
write_some_extensions-wire false ext im b (no_ext, no_im) = rw (no_ext, no_im, append-nil) refl

-- The message when the rest of an object, its payload or else its status, has been read.
abbrev pub at_end : List ℕ → ℕ → StreamSubGroupObject → StreamSubGroupObject
at_end [] status m = record m {
  payload_len = 0;
  object_status = status;
  current_pos = 3;
  parse_completed = true;
}
at_end (x ∷ xs) status m = record m {
  payload_len = length (x ∷ xs);
  payload = x ∷ xs;
  current_pos = 4;
  parse_completed = true;
}

-- The object as it is received by a message that has just begun.
abbrev pub received_object :
    Bool → StreamSubGroupObject → StreamSubGroupObject → StreamSubGroupObject
received_object may o m = at_end o.payload o.object_status (record m {
  object_delta = o.object_delta;
  parsing = received_some may o.parsing.mutable.extensions o.parsing.immutable_extensions;
  current_pos = 2;
})

case2-wire :
    (payload : List ℕ) (status : ℕ) (m : StreamSubGroupObject) (rest : List ℕ)
    → m.current_pos ≡ 2
    → status < 2 ^ 8
    → length payload < 2 ^ 32
    → case2 (payload_wire payload status ++ rest) m ≡ ok (true, rest, at_end payload status m)
unfolding case2 case3 case4
case2-wire [] status m rest at hs hl =
    let small : object_status status ≡ status = omega (arith, hs) in
    rw
      (
        decode_uint_v_zero (wire status ++ rest),
        at,
        decode_uint_v-wire status rest (omega (arith, hs)),
        small,
      )
      refl
case2-wire (x ∷ xs) status m rest at hs hl =
    let more : (suc (length xs) == 0) ≡ false = ground arith in
    rw
      (
        append_assoc,
        decode_uint_v-wire (suc (length xs)) (x ∷ xs ++ rest) (omega (arith, hl)),
        more,
        at,
        take_payload-append x xs rest hl,
      )
      refl

-- The message behind its extensions, at the given position, with what was received of them.
at_payload : AllProgress → StreamSubGroupObject → StreamSubGroupObject
at_payload p m = record m { parsing = p; current_pos = 2 }

extensions_case-wire :
    (may : Bool) (ext im : Option Extensions) (b : List ℕ) (m : StreamSubGroupObject)
    → MayHave may ext im
    → m.current_pos ≡ 1
    → m.parsing ≡ all_start
    → extensions_case may (some_wire may ext im ++ b) m
      ≡ case2 b (at_payload (received_some may ext im) m)
unfolding extensions_case some_wire at_payload
extensions_case-wire true ext im b m h at fresh =
    rw (append_assoc, fresh, parse_all_extensions-wire ext im b h, at) refl
extensions_case-wire false ext im b m h at fresh = rw (fresh, at) refl

case1_known :
    (b : List ℕ) (m : StreamSubGroupObject) (type : ℕ) (p : StreamHeaderProperties)
    → m.stream_type ≡ some type
    → stream_header_properties type ≡ ok p
    → case1 b m ≡ extensions_case p.may_contain_extensions b m
unfolding case1
case1_known b m type p tm known = rw (tm, known) refl

-- What the object's extensions are on both sides.
abbrev pub Fits : Bool → StreamSubGroupObject → Type 0
Fits may o =
    MayHave may o.parsing.mutable.extensions o.parsing.immutable_extensions
    × (o.object_delta < 2 ^ 62)
    × (o.object_status < 2 ^ 8)
    × (length o.payload < 2 ^ 32)

unfoldable pub object_wire : Bool → StreamSubGroupObject → List ℕ
object_wire may o =
    wire o.object_delta
    ++ (some_wire may o.parsing.mutable.extensions o.parsing.immutable_extensions
        ++ payload_wire o.payload o.object_status)

pub serialize_subgroup_object-wire :
    (o : StreamSubGroupObject) (type : ℕ) (p : StreamHeaderProperties)
    → o.stream_type ≡ some type
    → stream_header_properties type ≡ ok p
    → Fits p.may_contain_extensions o
    → serialize_subgroup_object o [] ≡ ok (object_wire p.may_contain_extensions o)
unfolding serialize_subgroup_object object_wire
serialize_subgroup_object-wire o type p to known (h, hd, hs, hl) =
    let ext = o.parsing.mutable.extensions in
    let im = o.parsing.immutable_extensions in
    rw
      (
        write_u64-wire o.object_delta [] hd,
        to,
        known,
        write_some_extensions-wire p.may_contain_extensions ext im (wire o.object_delta) h,
        write_payload-wire o.payload o.object_status _ hs hl,
        append_assoc,
      )
      refl

pub parse_subgroup_object-wire :
    (o m : StreamSubGroupObject) (type : ℕ) (p : StreamHeaderProperties) (rest : List ℕ)
    → m.stream_type ≡ some type
    → stream_header_properties type ≡ ok p
    → Fits p.may_contain_extensions o
    → m.current_pos ≡ 0
    → m.parsing ≡ all_start
    → parse_subgroup_object (object_wire p.may_contain_extensions o ++ rest) m
      ≡ ok (true, rest, received_object p.may_contain_extensions o m)
unfolding parse_subgroup_object case0 at_payload object_wire
parse_subgroup_object-wire o m type p rest tm known (h, hd, hs, hl) at fresh =
    let ext = o.parsing.mutable.extensions in
    let im = o.parsing.immutable_extensions in
    rw
      (
        append_assoc,
        append_assoc,
        at,
        decode_uint_v-wire o.object_delta _ hd,
        case1_known _ (record m { object_delta = o.object_delta; current_pos = 1 }) type p tm known,
        extensions_case-wire p.may_contain_extensions ext im _
            (record m { object_delta = o.object_delta; current_pos = 1 }) h refl fresh,
        case2-wire o.payload o.object_status
            (record m {
              object_delta = o.object_delta;
              parsing = received_some p.may_contain_extensions ext im;
              current_pos = 2;
            })
            rest refl hs hl,
      )
      refl

-- An object that is serialised, with extensions that fit just where its type may have them, is parsed
-- by a message of the same type to the same delta, and payload or status, and to what a receiver makes
-- of its extensions, and what follows is left. The receiver's map also has the block of the immutable
-- extensions under its key, an empty map is received as none, and each value of an even type is padded
-- to eight bytes. The delta is below 2^62, the payload shorter than 2^32 and the
-- status below 2^8.
pub parse_subgroup_object-serialize_subgroup_object :
    (o m : StreamSubGroupObject) (type : ℕ) (p : StreamHeaderProperties) (rest : List ℕ)
    → o.stream_type ≡ some type
    → m.stream_type ≡ some type
    → stream_header_properties type ≡ ok p
    → Fits p.may_contain_extensions o
    → m.current_pos ≡ 0
    → m.parsing ≡ all_start
    → (do b ← serialize_subgroup_object o []; parse_subgroup_object (b ++ rest) m)
      ≡ ok (true, rest, received_object p.may_contain_extensions o m)
parse_subgroup_object-serialize_subgroup_object o m type p rest to tm known h at fresh =
    rw (serialize_subgroup_object-wire o type p to known h)
      (parse_subgroup_object-wire o m type p rest tm known h at fresh)
