-- ===== src/CtrlTypes/Tests.antt =====
-- Concrete parts of control messages, and the theorems at them.
use libquicr.Prelude.{
  ◌≡◌, ◌↔◌, inl, true, [], ◌∷◌, ◌++◌, ok, ◌>>=◌, arith, ℕ, Bool, List, refl, length, throws,
  invalid_argument, ◌≤◌, ◌<◌, ◌⊎◌,
}
use libquicr.CtrlTypes.{
  ControlMessage, write_control_message, read_control_message, KeyValuePair, write_kvp, read_kvp,
  kvp_eq, le_word, read_bytes, read_u64,
}
use libquicr.CtrlTypes.Ints.{read_control_message-write_control_message}
use libquicr.CtrlTypes.Pairs.{kvp_eq_iff, read_kvp-write_kvp, pure_pair}
use libquicr.UintVar.{from_bytes, get, size}
use libquicr.TrackName.{TrackNamespace, make}
use libquicr.CtrlTypes.Namespace.{write_namespace, read_namespace}
use libquicr.CtrlTypes.Namespace.Reread.{read_namespace_again}
use libquicr.CtrlTypes.Fetch.{StandaloneFetch, write_standalone_fetch, read_standalone_fetch}
use libquicr.CtrlTypes.Fetch.RoundTrip.{read_standalone_fetch-write_standalone_fetch}

abbrev timeout : KeyValuePair
timeout = record { type = 2; value = 0x88 ∷ 0x13 ∷ 0 ∷ 0 ∷ [] }

abbrev token : KeyValuePair
token = record { type = 3; value = 1 ∷ 2 ∷ 3 ∷ [] }

abbrev setup : ControlMessage
setup = record { type = 0x20; payload = 1 ∷ 2 ∷ [] }

read_control_message-write_control_message_example :
    (write_control_message setup [] >>= λ b. read_control_message (b ++ (9 ∷ [])))
    ≡ ok (setup, 9 ∷ [])
read_control_message-write_control_message_example =
    read_control_message-write_control_message setup (9 ∷ []) (omega arith)

abbrev five : List ℕ
five = 5 ∷ []

abbrev padded_five : List ℕ
padded_five = 5 ∷ 0 ∷ []

kvp_eq_iff_example :
    ((length padded_five ≤ 8)
      × (length five ≤ 8)
      × ((kvp_eq (record { type = 2; value = padded_five }) (record { type = 2; value = five })
            ≡ ok true)
          ↔ (le_word padded_five ≡ le_word five)))
    ⊎ (((8 < length padded_five) ⊎ (8 < length five))
        × (kvp_eq (record { type = 2; value = padded_five }) (record { type = 2; value = five })
            ≡ throws invalid_argument))
kvp_eq_iff_example = kvp_eq_iff 2 padded_five five refl (omega arith) (omega arith)

read_kvp-write_kvp_example :
    (do
      b ← write_kvp timeout []
      r ← read_kvp (b ++ (9 ∷ []))
      same ← kvp_eq timeout r.0
      pure_pair same r.1)
    ≡ ok (true, 9 ∷ [])
read_kvp-write_kvp_example =
    read_kvp-write_kvp timeout (9 ∷ [])
      (omega arith, inl (omega arith, omega arith, omega arith, omega arith))

-- A hash for the tests.
abbrev first_byte : List ℕ → ℕ
first_byte [] = 0
first_byte (x ∷ xs) = x

abbrev any_number : ℕ → Bool
any_number n = true

abbrev lobby : List (List ℕ)
lobby = (1 ∷ 2 ∷ []) ∷ (3 ∷ []) ∷ []

abbrev lobby_space : TrackNamespace
lobby_space = record { bytes = 1 ∷ 2 ∷ 3 ∷ []; entries = (0, 2) ∷ (2, 1) ∷ []; hashes = 1 ∷ 3 ∷ [] }

lobby_made : make first_byte lobby ≡ ok lobby_space
unfolding make
lobby_made = refl

-- The size is given in two bytes, where one would do.
abbrev lobby_message : List ℕ
lobby_message = 0x40 ∷ 2 ∷ 2 ∷ 1 ∷ 2 ∷ 1 ∷ 3 ∷ 7 ∷ []

lobby_read : read_namespace first_byte any_number lobby_message ≡ ok (lobby_space, 7 ∷ [])
unfolding read_namespace read_u64 read_bytes from_bytes get size make
lobby_read = refl

read_namespace_again_example :
    (write_namespace lobby_space [] >>= λ b. read_namespace first_byte any_number (b ++ (9 ∷ [])))
    ≡ ok (lobby_space, 9 ∷ [])
read_namespace_again_example =
    read_namespace_again first_byte any_number lobby_message (9 ∷ []) (lobby_space, 7 ∷ [])
      (omega arith) lobby_read

abbrev fetch : StandaloneFetch
fetch = record {
  track_namespace = lobby_space;
  track_name = 4 ∷ [];
  start = record { group = 1; object = 0 };
  end = record { group = 200; object = 5 };
}

read_standalone_fetch-write_standalone_fetch_example :
    (write_standalone_fetch fetch [] >>= λ b.
    read_standalone_fetch first_byte any_number (b ++ (9 ∷ [])))
    ≡ ok (fetch, 9 ∷ [])
read_standalone_fetch-write_standalone_fetch_example =
    read_standalone_fetch-write_standalone_fetch first_byte any_number lobby fetch (9 ∷ [])
      lobby_made (omega arith) refl (omega arith) (omega arith) (omega arith)
