-- ===== src/Messages/Object.antt =====
-- What the parsers and the serialisers of objects in src/messages.cpp share: extensions in the middle
-- of a message, the payload at its end, and the status in place of an empty one.
pub mod Wire
pub mod SubGroup
pub mod Fetch
pub mod Datagram
pub mod Status
mod Tests
use libquicr.Prelude.{
  ℕ, ◌%◌, ◌^◌, Bool, true, false, Option, none, some, List, [], ◌∷◌, ◌++◌, Outcome, ok, throws,
  undefined, unfinished, ◌>>=◌, if◌then◌else◌, length,
}
use libquicr.UintVar.{encode, bytes}
use libquicr.CtrlTypes.{write_u64, write_u8}
use libquicr.StreamBuffer.{Read, empty, front_n, pop_n, available, push, decode_uint_v}
use libquicr.Messages.Stage.{Parsed, need}
use libquicr.Messages.Extensions.{AllProgress, Progress}

-- `if (!Parse(buffer, …)) { return false; }` for a parser that keeps part `s` of the message, which
-- `set` puts back.
abbrev pub need_part : {S M : Type 0} → Parsed S → (S → M) → (List ℕ → M → Parsed M) → Parsed M
need_part (ok (true, b, s)) set k = k b (set s)
need_part (ok (false, b, s)) set k = ok (false, b, set s)
need_part (throws e) set k = throws e
need_part undefined set k = undefined
need_part unfinished set k = unfinished

-- Both kinds of extensions set to `std::nullopt`.
abbrev pub no_extensions : AllProgress → AllProgress
no_extensions p = record p {
  mutable = record p.mutable { extensions = none };
  immutable_extensions = none;
}

-- `static_cast<ObjectStatus>(status)`
abbrev pub object_status : ℕ → ℕ
object_status status = status % 2 ^ 8

-- `Available`, `Front` and `Pop` of the payload of an object on a stream, which is not read as long as
-- `Front` gives nothing.
unfoldable pub take_payload : ℕ → List ℕ → Read (List ℕ)
take_payload n buffer =
    if available n buffer
    then (if empty (front_n n buffer)
        then ok (none, buffer)
        else ok (some (front_n n buffer), pop_n n buffer))
    else ok (none, buffer)

-- The payload with its length in front, or a length of 0 and the status.
unfoldable pub write_payload : List ℕ → ℕ → List ℕ → Outcome (List ℕ)
write_payload [] status buffer = write_u64 (object_status status) (write_u8 0 buffer)
write_payload (b ∷ bs) status buffer =
    write_u64 (length (b ∷ bs)) buffer >>= λ buffer. ok (push (b ∷ bs) buffer)
