-- ===== src/Messages/StreamHeader/RoundTrip.antt =====
-- Stream headers that are serialised are parsed again.
use libquicr.Prelude.{
  ℕ, ◌+◌, ◌%◌, ◌^◌, ◌<◌, ◌≡◌, refl, true, Option, none, some, List, [], ◌∷◌, ◌++◌, append_assoc,
  append-nil, ok, ◌>>=◌, arith,
}
use libquicr.UintVar.Wire.{wire}
use libquicr.CtrlTypes.{write_u8}
use libquicr.CtrlTypes.Ints.{write_u64-wire}
use libquicr.StreamBuffer.RoundTrip.{decode_uint_v-wire}
use libquicr.Messages.Types.{
  SubgroupIdType, is_zero, set_from_first_object, explicit, stream_header_properties,
  StreamHeaderProperties,
}
use libquicr.Messages.Stage.{read_byte}
use libquicr.Messages.StreamHeader.{
  StreamHeaderSubGroup, case0, case1, case2, case3, case4, subgroup_case, parse_stream_header,
  write_subgroup_id, serialize_stream_header,
}

-- The subgroup id that a receiver has after the header, and the sender's obligation on it.
abbrev pub received_id : SubgroupIdType → Option ℕ → Option ℕ
received_id is_zero id = some 0
received_id set_from_first_object id = none
received_id explicit id = id

abbrev pub IdFits : SubgroupIdType → Option ℕ → Type 0
IdFits explicit (some id) = id < 2 ^ 62
IdFits explicit none = ⊥
IdFits is_zero id = id ≡ none
IdFits set_from_first_object id = id ≡ none

unfoldable pub id_wire : Option ℕ → List ℕ
id_wire none = []
id_wire (some id) = wire id

write_subgroup_id-wire :
    (s : SubgroupIdType) (id : Option ℕ) (b : List ℕ)
    → IdFits s id
    → write_subgroup_id s id b ≡ ok (b ++ id_wire id)
unfolding write_subgroup_id id_wire
write_subgroup_id-wire explicit (some id) b h = write_u64-wire id b h
write_subgroup_id-wire explicit none b h = absurd h
write_subgroup_id-wire is_zero none b h = rw append-nil
write_subgroup_id-wire is_zero (some id) b h = cc
write_subgroup_id-wire set_from_first_object none b h = rw append-nil
write_subgroup_id-wire set_from_first_object (some id) b h = cc

subgroup_case-wire :
    (s : SubgroupIdType) (id : Option ℕ) (m : StreamHeaderSubGroup) (pri : ℕ) (rest : List ℕ)
    → IdFits s id
    → subgroup_case s (id_wire id ++ (pri ∷ rest)) m
      ≡ ok (
        true,
        rest,
        record m {
          subgroup_id = received_id s id;
          priority = pri;
          current_pos = m.current_pos + 1 + 1;
          parse_completed = true;
        },
      )
unfolding subgroup_case id_wire case4 read_byte
subgroup_case-wire explicit (some id) m pri rest h = rw (decode_uint_v-wire id (pri ∷ rest) h)
subgroup_case-wire explicit none m pri rest h = absurd h
subgroup_case-wire is_zero none m pri rest h = refl
subgroup_case-wire is_zero (some id) m pri rest h = cc
subgroup_case-wire set_from_first_object none m pri rest h = refl
subgroup_case-wire set_from_first_object (some id) m pri rest h = cc

unfoldable pub header_wire : StreamHeaderSubGroup → List ℕ
header_wire h =
    wire h.type
    ++ (wire h.track_alias ++ (wire h.group_id ++ (id_wire h.subgroup_id ++ (h.priority ∷ []))))

-- The header as it is received.
abbrev pub received_header : SubgroupIdType → StreamHeaderSubGroup → StreamHeaderSubGroup
received_header s h = record h {
  subgroup_id = received_id s h.subgroup_id;
  current_pos = 5;
  parse_completed = true;
}

-- What a header's fields must be.
abbrev pub HeaderFits : SubgroupIdType → StreamHeaderSubGroup → Type 0
HeaderFits s h =
    (h.type < 2 ^ 8) × (h.track_alias < 2 ^ 62) × (h.group_id < 2 ^ 62) × IdFits s h.subgroup_id

pub serialize_stream_header-wire :
    (h : StreamHeaderSubGroup) (p : StreamHeaderProperties)
    → stream_header_properties h.type ≡ ok p
    → HeaderFits p.subgroup_id_type h
    → serialize_stream_header h [] ≡ ok (header_wire h)
unfolding serialize_stream_header header_wire write_u8
serialize_stream_header-wire h p known (ht, ha, hg, hi) =
    rw
      (
        write_u64-wire h.type [] (omega (arith, ht)),
        write_u64-wire h.track_alias (wire h.type) ha,
        write_u64-wire h.group_id (wire h.type ++ wire h.track_alias) hg,
        known,
        write_subgroup_id-wire p.subgroup_id_type h.subgroup_id _ hi,
        append_assoc,
        append_assoc,
        append_assoc,
      )
      refl

pub parse_stream_header-wire :
    (h m : StreamHeaderSubGroup) (p : StreamHeaderProperties) (rest : List ℕ)
    → stream_header_properties h.type ≡ ok p
    → HeaderFits p.subgroup_id_type h
    → m.current_pos ≡ 0
    → parse_stream_header (header_wire h ++ rest) m
      ≡ ok (true, rest, received_header p.subgroup_id_type h)
unfolding parse_stream_header case0 case1 case2 case3 header_wire
parse_stream_header-wire h m p rest known (ht, ha, hg, hi) e =
    let byte : h.type % 2 ^ 8 ≡ h.type = omega (arith, ht) in
    rw
      (
        append_assoc,
        append_assoc,
        append_assoc,
        append_assoc,
        e,
        decode_uint_v-wire h.type _ (omega (arith, ht)),
        byte,
        decode_uint_v-wire h.track_alias _ ha,
        decode_uint_v-wire h.group_id _ hg,
        known,
        subgroup_case-wire p.subgroup_id_type h.subgroup_id _ h.priority rest hi,
      )
      refl

-- A header that is serialised, with a known type and a subgroup id just where the type has one, is
-- parsed to the same fields, the id being 0 or left open where the type says so; what follows is left.
pub parse_stream_header-serialize_stream_header :
    (h m : StreamHeaderSubGroup) (p : StreamHeaderProperties) (rest : List ℕ)
    → stream_header_properties h.type ≡ ok p
    → HeaderFits p.subgroup_id_type h
    → m.current_pos ≡ 0
    → (do b ← serialize_stream_header h []; parse_stream_header (b ++ rest) m)
      ≡ ok (true, rest, received_header p.subgroup_id_type h)
parse_stream_header-serialize_stream_header h m p rest known fits e =
    rw (serialize_stream_header-wire h p known fits)
      (parse_stream_header-wire h m p rest known fits e)
