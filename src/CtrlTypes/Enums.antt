-- ===== src/CtrlTypes/Enums.antt =====
-- src/ctrl_message_types.cpp: the operators of the enumerations, which cast and call those of the
-- integers. An enumeration over `uint8_t` can hold any byte, one over `uint64_t` any such number.
use libquicr.Prelude.{ℕ, ◌%◌, ◌^◌, ◌<◌, ◌≡◌, List, ◌++◌, [], Outcome, ok, ◌>>=◌}
use libquicr.CtrlTypes.{Reader, write_u64, read_u64, read_u8}
use libquicr.CtrlTypes.Ints.{write_u64-wire, read_u64-wire}

unfoldable pub write_group_order : ℕ → List ℕ → Outcome (List ℕ)
write_group_order value buffer = write_u64 value buffer

unfoldable pub read_group_order : Reader ℕ
read_group_order buffer = do r ← read_u64 buffer; ok (r.0 % 256, r.1)

-- It is written as a varint and read as one byte.
unfoldable pub write_fetch_type : ℕ → List ℕ → Outcome (List ℕ)
write_fetch_type value buffer = write_u64 value buffer

unfoldable pub read_fetch_type : Reader ℕ
read_fetch_type buffer = read_u8 buffer

unfoldable pub write_fetch_error_code : ℕ → List ℕ → Outcome (List ℕ)
write_fetch_error_code value buffer = write_u64 value buffer

unfoldable pub read_fetch_error_code : Reader ℕ
read_fetch_error_code buffer = do r ← read_u64 buffer; ok (r.0 % 256, r.1)

unfoldable pub write_publish_done_status_code : ℕ → List ℕ → Outcome (List ℕ)
write_publish_done_status_code value buffer = write_u64 value buffer

unfoldable pub read_publish_done_status_code : Reader ℕ
read_publish_done_status_code buffer = read_u64 buffer

unfoldable pub write_subscribe_error_code : ℕ → List ℕ → Outcome (List ℕ)
write_subscribe_error_code value buffer = write_u64 value buffer

unfoldable pub read_subscribe_error_code : Reader ℕ
read_subscribe_error_code buffer = read_u64 buffer

unfoldable pub write_subscribe_namespace_error_code : ℕ → List ℕ → Outcome (List ℕ)
write_subscribe_namespace_error_code value buffer = write_u64 value buffer

unfoldable pub read_subscribe_namespace_error_code : Reader ℕ
read_subscribe_namespace_error_code buffer = read_u64 buffer

-- A fetch error code is read modulo 2^8 from its varint, so one of another byte size is taken for a
-- code of one byte.
pub read_fetch_error_code-write_subscribe_error_code :
    (v : ℕ) (rest : List ℕ)
    → v < 2 ^ 62
    → (write_subscribe_error_code v [] >>= λ b. read_fetch_error_code (b ++ rest))
      ≡ ok (v % 256, rest)
unfolding write_subscribe_error_code read_fetch_error_code
read_fetch_error_code-write_subscribe_error_code v rest h =
    rw (write_u64-wire v [] h, read_u64-wire v rest h)
