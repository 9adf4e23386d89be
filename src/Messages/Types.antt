-- ===== src/Messages/Types.antt =====
-- The type bytes of streams and datagrams and the properties that they stand for.
-- An `enum class` over `uint8_t` can hold any byte, so a type is a number below 256.
use libquicr.Prelude.{
  ℕ, ◌/◌, ◌%◌, ◌<◌, ◌≡◌, Bool, true, false, ◌||◌, ◌&&◌, not, List, [], ◌∷◌, Outcome, ok, throws,
  protocol_violation, ◌>>=◌, ◌==◌, if◌then◌else◌, arith,
}

pub data SubgroupIdType : Type 0 where
  is_zero set_from_first_object explicit : SubgroupIdType

abbrev pub is_any : ℕ → List ℕ → Bool
is_any t [] = false
is_any t (x ∷ xs) = t == x || is_any t xs

-- The labels of a `switch`: those of the first result, those of the second, and the throw behind it.
abbrev switch_bool : ℕ → List ℕ → List ℕ → Bool → Outcome Bool
switch_bool t here there b =
    if is_any t here then ok b else if is_any t there then ok (not b) else throws protocol_violation

unfoldable pub may_contain_extensions : ℕ → Outcome Bool
may_contain_extensions t =
    switch_bool t (0x10 ∷ 0x18 ∷ 0x12 ∷ 0x1a ∷ 0x14 ∷ 0x1c ∷ [])
      (0x11 ∷ 0x19 ∷ 0x13 ∷ 0x1b ∷ 0x15 ∷ 0x1d ∷ []) false

unfoldable pub end_of_group : ℕ → Outcome Bool
end_of_group t =
    switch_bool t (0x18 ∷ 0x19 ∷ 0x1a ∷ 0x1b ∷ 0x1c ∷ 0x1d ∷ [])
      (0x10 ∷ 0x11 ∷ 0x12 ∷ 0x13 ∷ 0x14 ∷ 0x15 ∷ []) true

unfoldable pub get_subgroup_id_type : ℕ → Outcome SubgroupIdType
get_subgroup_id_type t =
    if is_any t (0x10 ∷ 0x11 ∷ 0x18 ∷ 0x19 ∷ [])
    then ok is_zero
    else if is_any t (0x12 ∷ 0x13 ∷ 0x1a ∷ 0x1b ∷ [])
    then ok set_from_first_object
    else if is_any t (0x14 ∷ 0x15 ∷ 0x1c ∷ 0x1d ∷ [])
    then ok explicit
    else throws protocol_violation

pub record StreamHeaderProperties : Type 0 where
  pub subgroup_id_type : SubgroupIdType
  pub end_of_group : Bool
  pub may_contain_extensions : Bool

unfoldable pub stream_header_properties : ℕ → Outcome StreamHeaderProperties
unfolding may_contain_extensions end_of_group get_subgroup_id_type
stream_header_properties t = do
  s ← get_subgroup_id_type t
  e ← end_of_group t
  m ← may_contain_extensions t
  ok (record { subgroup_id_type = s; end_of_group = e; may_contain_extensions = m })

abbrev stream_type_of : SubgroupIdType → Bool → Bool → ℕ
stream_type_of is_zero true m = if m then 0x19 else 0x18
stream_type_of is_zero false m = if m then 0x11 else 0x10
stream_type_of set_from_first_object true m = if m then 0x1b else 0x1a
stream_type_of set_from_first_object false m = if m then 0x13 else 0x12
stream_type_of explicit true m = if m then 0x1d else 0x1c
stream_type_of explicit false m = if m then 0x15 else 0x14

-- `StreamHeaderProperties::GetType()`
unfoldable pub stream_header_type : StreamHeaderProperties → ℕ
stream_header_type p = stream_type_of p.subgroup_id_type p.end_of_group p.may_contain_extensions

pub record DatagramHeaderProperties : Type 0 where
  pub end_of_group : Bool
  pub has_extensions : Bool

unfoldable pub datagram_end_of_group : ℕ → Outcome Bool
datagram_end_of_group t = switch_bool t (2 ∷ 3 ∷ []) (0 ∷ 1 ∷ []) true

unfoldable pub datagram_has_extensions : ℕ → Outcome Bool
datagram_has_extensions t = switch_bool t (0 ∷ 2 ∷ []) (1 ∷ 3 ∷ []) false

unfoldable pub datagram_header_properties : ℕ → Outcome DatagramHeaderProperties
unfolding datagram_end_of_group datagram_has_extensions
datagram_header_properties t = do
  e ← datagram_end_of_group t
  x ← datagram_has_extensions t
  ok (record { end_of_group = e; has_extensions = x })

-- `DatagramHeaderProperties::GetType()`
unfoldable pub datagram_header_type : DatagramHeaderProperties → ℕ
datagram_header_type p =
    if p.end_of_group then if p.has_extensions then 3 else 2 else if p.has_extensions then 1 else 0

-- `DatagramStatusProperties`, from a type and to one.
unfoldable pub status_has_extensions : ℕ → Outcome Bool
status_has_extensions t = switch_bool t (4 ∷ []) (5 ∷ []) false

unfoldable pub datagram_status_type : Bool → ℕ
datagram_status_type has_extensions = if has_extensions then 5 else 4

unfoldable pub type_is_datagram : ℕ → Outcome Bool
type_is_datagram t = switch_bool t (0 ∷ 1 ∷ 2 ∷ 3 ∷ 4 ∷ 5 ∷ []) [] true

unfoldable pub type_is_datagram_header_type : ℕ → Outcome Bool
type_is_datagram_header_type t = switch_bool t (0 ∷ 1 ∷ 2 ∷ 3 ∷ []) (4 ∷ 5 ∷ []) true

unfoldable pub type_is_datagram_status_type : ℕ → Outcome Bool
type_is_datagram_status_type t = switch_bool t (4 ∷ 5 ∷ []) (0 ∷ 1 ∷ 2 ∷ 3 ∷ []) true

unfoldable pub type_is_stream_header_type : ℕ → Outcome Bool
type_is_stream_header_type t =
    switch_bool t
      (0x10 ∷ 0x11 ∷ 0x12 ∷ 0x13 ∷ 0x14 ∷ 0x15 ∷ 0x18 ∷ 0x19 ∷ 0x1a ∷ 0x1b ∷ 0x1c ∷ 0x1d ∷ [])
      (0x05 ∷ []) true

-- A type that has the properties of a stream header is one, and a datagram's type is that of an object
-- or that of a status.
pub type_is_stream_header_type_lem :
    (t : ℕ) (p : StreamHeaderProperties)
    → stream_header_properties t ≡ ok p
    → type_is_stream_header_type t ≡ ok true
unfolding stream_header_properties type_is_stream_header_type
type_is_stream_header_type_lem t p h = ground arith

pub type_is_datagram_lem :
    (t : ℕ)
    → type_is_datagram t
      ≡ (do o ← type_is_datagram_header_type t; s ← type_is_datagram_status_type t; ok (o || s))
unfolding type_is_datagram type_is_datagram_header_type type_is_datagram_status_type
type_is_datagram_lem t = ground arith

-- Stream header types and properties correspond: each property set has its type, which reads back.
pub stream_header_properties-stream_header_type :
    (p : StreamHeaderProperties) → stream_header_properties (stream_header_type p) ≡ ok p
unfolding stream_header_properties stream_header_type
stream_header_properties-stream_header_type p = ground arith

-- `GetType` of the properties of a type that is known gives that type.
pub stream_header_type-stream_header_properties :
    (t : ℕ) (p : StreamHeaderProperties)
    → stream_header_properties t ≡ ok p
    → stream_header_type p ≡ t
unfolding stream_header_properties stream_header_type
stream_header_type-stream_header_properties t p h = ground arith

-- The properties of a type byte are its bits: it is a known type when its high four bits are 1 and
-- its subgroup bits are not 3, and any other byte is refused.
pub stream_header_properties_bits :
    (t : ℕ)
    → t < 256
    → stream_header_properties t ≡ (
        if t / 16 == 1 && not (t / 2 % 4 == 3)
        then ok (record {
          subgroup_id_type =
              if t / 2 % 4 == 0
              then is_zero
              else if t / 2 % 4 == 1
              then set_from_first_object
              else explicit;
          end_of_group = t / 8 % 2 == 1;
          may_contain_extensions = t % 2 == 1;
        })
        else throws protocol_violation)
unfolding stream_header_properties
stream_header_properties_bits t h = ground arith
