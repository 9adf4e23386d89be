-- ===== src/Messages/Tests.antt =====
-- Concrete messages of data streams, and the theorems at them.
use libquicr.Prelude.{
  ◌≡◌, refl, true, false, some, [], ◌∷◌, ◌++◌, ok, throws, protocol_violation, ◌>>=◌, arith, ◌≢◌,
  unfinished,
}
use libquicr.Messages.Extensions.Fuel.{parse_extensions_ends}
use libquicr.Messages.Types.{
  explicit, StreamHeaderProperties, stream_header_properties, stream_header_type,
  stream_header_properties_bits, stream_header_properties-stream_header_type,
}
use libquicr.Messages.Stage.{Resumes}
use libquicr.Messages.FetchHeader.{fresh, parse_fetch_header, parse_fetch_header-Resumes}
use libquicr.Messages.StreamHeader.{
  StreamHeaderSubGroup, parse_stream_header, serialize_stream_header,
}
use libquicr.Messages.StreamHeader.Resume.{parse_stream_header-Resumes}
use libquicr.Messages.StreamHeader.RoundTrip.{parse_stream_header-serialize_stream_header}
use libquicr.Messages.Extensions.{Extensions, parse_extensions}
use libquicr.Messages.Extensions.RoundTrip.{start}

abbrev explicit_type : StreamHeaderProperties
explicit_type = record {
  subgroup_id_type = explicit;
  end_of_group = false;
  may_contain_extensions = true;
}

abbrev header : StreamHeaderSubGroup
header = record {
  type = 0x15;
  track_alias = 300;
  group_id = 7;
  subgroup_id = some 2;
  priority = 4;
  current_pos = 0;
  parse_completed = false;
}

explicit_type_known : stream_header_properties 0x15 ≡ ok explicit_type
unfolding stream_header_properties
explicit_type_known = refl

stream_header_properties_bits_example : stream_header_properties 0x16 ≡ throws protocol_violation
stream_header_properties_bits_example = stream_header_properties_bits 0x16 (omega arith)

stream_header_properties-stream_header_type_example :
    stream_header_properties (stream_header_type explicit_type) ≡ ok explicit_type
stream_header_properties-stream_header_type_example =
    stream_header_properties-stream_header_type explicit_type

parse_fetch_header-Resumes_example :
    Resumes parse_fetch_header
      (9 ∷ [])
      (parse_fetch_header (5 ∷ []) (fresh 0 0))
      (parse_fetch_header (5 ∷ 9 ∷ []) (fresh 0 0))
parse_fetch_header-Resumes_example = parse_fetch_header-Resumes (5 ∷ []) (9 ∷ []) (fresh 0 0)

parse_stream_header-Resumes_example :
    Resumes parse_stream_header
      (7 ∷ 2 ∷ 4 ∷ [])
      (parse_stream_header (0x15 ∷ 3 ∷ []) header)
      (parse_stream_header (0x15 ∷ 3 ∷ 7 ∷ 2 ∷ 4 ∷ []) header)
parse_stream_header-Resumes_example =
    parse_stream_header-Resumes (0x15 ∷ 3 ∷ []) (7 ∷ 2 ∷ 4 ∷ []) header

parse_stream_header-serialize_stream_header_example :
    (serialize_stream_header header [] >>= λ b. parse_stream_header (b ++ (1 ∷ [])) header)
    ≡ ok (true, 1 ∷ [], record header { current_pos = 5; parse_completed = true })
parse_stream_header-serialize_stream_header_example =
    parse_stream_header-serialize_stream_header header header explicit_type (1 ∷ [])
      explicit_type_known (omega arith, omega arith, omega arith, omega arith) refl

abbrev two_extensions : Extensions
two_extensions = (2, (5 ∷ []) ∷ []) ∷ (3, (1 ∷ 2 ∷ []) ∷ []) ∷ []

parse_extensions_ends_example : parse_extensions (6 ∷ 2 ∷ 5 ∷ 3 ∷ []) start ≢ unfinished
parse_extensions_ends_example =
    parse_extensions_ends (6 ∷ 2 ∷ 5 ∷ 3 ∷ []) start
      (omega arith, (omega arith, (omega arith, (omega arith, tt))))
