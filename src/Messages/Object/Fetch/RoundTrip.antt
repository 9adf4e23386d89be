-- ===== src/Messages/Object/Fetch/RoundTrip.antt =====
-- Objects of a fetch that are serialised are parsed again.
use libquicr.Prelude.{
  ℕ, suc, ◌^◌, ◌<◌, ◌≡◌, refl, ◌∙◌, true, false, Option, List, [], ◌∷◌, ◌++◌, append_assoc, ok,
  ◌>>=◌, arith, length, ◌==◌,
}
use libquicr.UintVar.Wire.{wire}
use libquicr.CtrlTypes.{write_u8}
use libquicr.CtrlTypes.Ints.{write_u64-wire}
use libquicr.StreamBuffer.RoundTrip.{decode_uint_v-wire}
use libquicr.Messages.Stage.{read_byte}
use libquicr.Messages.Extensions.{Extensions, or_empty, pairs}
use libquicr.Messages.Extensions.Write.{pairs_wire}
use libquicr.Messages.Extensions.Maps.{block_length}
use libquicr.Messages.Extensions.Both.{
  image, ExtensionsFit, received_all, all_start, serialize_extensions-wire,
  parse_all_extensions-wire,
}
use libquicr.Messages.Object.{object_status}
use libquicr.Messages.Object.Wire.{
  payload_wire, write_payload-wire, take_payload-append, decode_uint_v_zero,
}
use libquicr.Messages.Object.Fetch.{
  FetchObject, case0, case1, case2, case3, case4, case5, case6, case7, parse_fetch_object,
  serialize_fetch_object,
}

-- The message when the rest of an object, its payload or else its status, has been read.
abbrev pub at_end : List ℕ → ℕ → FetchObject → FetchObject
at_end [] status m = record m {
  payload_len = 0;
  object_status = status;
  current_pos = 6;
  parse_completed = true;
}
at_end (x ∷ xs) status m = record m {
  payload_len = length (x ∷ xs);
  payload = x ∷ xs;
  current_pos = 7;
  parse_completed = true;
}

-- The object as it is received by a message that has just begun.
abbrev pub received_object : FetchObject → FetchObject → FetchObject
received_object o m = at_end o.payload o.object_status (record m {
  group_id = o.group_id;
  subgroup_id = o.subgroup_id;
  object_id = o.object_id;
  publisher_priority = o.publisher_priority;
  parsing = received_all o.parsing.mutable.extensions o.parsing.immutable_extensions;
  current_pos = 5;
})

case5-wire :
    (payload : List ℕ) (status : ℕ) (m : FetchObject) (rest : List ℕ)
    → m.current_pos ≡ 5
    → status < 2 ^ 8
    → length payload < 2 ^ 32
    → case5 (payload_wire payload status ++ rest) m ≡ ok (true, rest, at_end payload status m)
unfolding case5 case6 case7
case5-wire [] status m rest at hs hl =
    let small : object_status status ≡ status = omega (arith, hs) in
    rw
      (
        decode_uint_v_zero (wire status ++ rest),
        at,
        decode_uint_v-wire status rest (omega (arith, hs)),
        small,
      )
      refl
case5-wire (x ∷ xs) status m rest at hs hl =
    let more : (suc (length xs) == 0) ≡ false = ground arith in
    rw
      (
        append_assoc,
        decode_uint_v-wire (suc (length xs)) (x ∷ xs ++ rest) (omega (arith, hl)),
        more,
        at,
        take_payload-append x xs rest hl,
      )
      refl

case4-wire :
    (ext im : Option Extensions) (b : List ℕ) (m : FetchObject)
    → ExtensionsFit ext im
    → m.current_pos ≡ 4
    → m.parsing ≡ all_start
    → case4
        (wire (block_length (image im (or_empty ext)))
          ++ (pairs_wire (pairs (image im (or_empty ext))) ++ b))
        m
      ≡ case5 b (record m { parsing = received_all ext im; current_pos = 5 })
unfolding case4
case4-wire ext im b m h at fresh = rw (fresh, parse_all_extensions-wire ext im b h, at) refl

-- An object of a fetch that is serialised is parsed again with its ids, its priority, what a
-- receiver makes of its extensions, and its payload or its status, and what follows is left. Its ids are below 2^62, its payload is
-- shorter than 2^32, its status is below 2^8 and its extensions fit.
pub parse_fetch_object-serialize_fetch_object :
    (o m : FetchObject) (rest : List ℕ)
    → ExtensionsFit o.parsing.mutable.extensions o.parsing.immutable_extensions
    → o.group_id < 2 ^ 62
    → o.subgroup_id < 2 ^ 62
    → o.object_id < 2 ^ 62
    → o.object_status < 2 ^ 8
    → length o.payload < 2 ^ 32
    → m.current_pos ≡ 0
    → m.parsing ≡ all_start
    → (do b ← serialize_fetch_object o []; parse_fetch_object (b ++ rest) m)
      ≡ ok (true, rest, received_object o m)
unfolding serialize_fetch_object parse_fetch_object case0 case1 case2 case3 write_u8 read_byte
parse_fetch_object-serialize_fetch_object o m rest h hg hsub ho hs hl at fresh =
    let ext = o.parsing.mutable.extensions in
    let im = o.parsing.immutable_extensions in
    rw
      (
        write_u64-wire o.group_id [] hg,
        write_u64-wire o.subgroup_id _ hsub,
        write_u64-wire o.object_id _ ho,
        serialize_extensions-wire ext im _ h,
        write_payload-wire o.payload o.object_status _ hs hl,
        append_assoc,
        append_assoc,
        append_assoc,
        append_assoc,
        append_assoc,
        append_assoc,
        append_assoc,
        at,
        decode_uint_v-wire o.group_id _ hg,
        decode_uint_v-wire o.subgroup_id _ hsub,
        decode_uint_v-wire o.object_id _ ho,
      )
      (case4-wire ext im _
          (record m {
            group_id = o.group_id;
            subgroup_id = o.subgroup_id;
            object_id = o.object_id;
            publisher_priority = o.publisher_priority;
            current_pos = 4;
          })
          h refl fresh
        ∙ case5-wire o.payload o.object_status _ rest refl hs hl)
