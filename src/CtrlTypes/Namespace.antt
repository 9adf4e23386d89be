-- ===== src/CtrlTypes/Namespace.antt =====
-- src/ctrl_message_types.cpp: track namespaces in control messages. `can_allocate` says whether there
-- is memory for so many vectors.
pub mod RoundTrip
pub mod Reread
use libquicr.Prelude.{
  ℕ, zero, suc, ◌+◌, ◌/◌, ◌^◌, ◌≤◌, ◌<◌, ◌≡◌, refl, sym, ap, ◌∙◌, Bool, true, false, List, [], ◌∷◌,
  ◌++◌, append_assoc, Outcome, ok, throws, undefined, length_error, bad_alloc, ◌>>=◌, bind_ok, ltb,
  leb, if◌then◌else◌, length, take, drop, All, arith,
}
use libquicr.UintVar.Wire.{wire}
use libquicr.TrackName.{TrackNamespace, get_entries, make}
use libquicr.CtrlTypes.{Reader, write_u64, read_u64, write_bytes, read_bytes}
use libquicr.CtrlTypes.Ints.{write_u64-wire, read_u64-wire, write_bytes-wire, read_bytes-wire}

-- `std::vector<Bytes>::max_size()`, for vectors of 24 bytes.
abbrev pub max_size : ℕ
max_size = 384307168202282325

abbrev pub write_entries : List (List ℕ) → List ℕ → Outcome (List ℕ)
write_entries [] buffer = ok buffer
write_entries (entry ∷ entries) buffer = do b ← write_bytes entry buffer; write_entries entries b

unfoldable pub write_namespace : TrackNamespace → List ℕ → Outcome (List ℕ)
write_namespace ns buffer = do
  b ← write_u64 (length (get_entries ns)) buffer
  write_entries (get_entries ns) b

abbrev pub read_entries : ℕ → Reader (List (List ℕ))
read_entries zero buffer = ok ([], buffer)
read_entries (suc size) buffer = do
  e ← read_bytes buffer
  es ← read_entries size e.1
  ok (e.0 ∷ es.0, es.1)

module _ (hash : List ℕ → ℕ) (can_allocate : ℕ → Bool) where
  -- The loop over the vector of the entries and the constructor, which checks their number.
  abbrev pub read_allocated : ℕ × List ℕ → Outcome (TrackNamespace × List ℕ)
  read_allocated (n, buffer) = do es ← read_entries n buffer; ns ← make hash es.0; ok (ns, es.1)

  -- `std::vector<Bytes> entries(size)`
  abbrev pub allocate : ℕ × List ℕ → Outcome (TrackNamespace × List ℕ)
  allocate n =
      if ltb max_size n.0
      then throws length_error
      else if can_allocate n.0
      then read_allocated n
      else throws bad_alloc

  unfoldable pub read_namespace : Reader TrackNamespace
  read_namespace buffer = do n ← read_u64 buffer; allocate n
