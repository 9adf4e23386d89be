-- ===== src/TrackName/Hash.antt =====
-- The hash of a full track name stands for it in messages.
use libquicr.Prelude.{ℕ, ◌^◌, ◌<◌, ◌≡◌, List, ◌++◌, ok, arith}
use libquicr.UintVar.Wire.{wire}
use libquicr.CtrlTypes.{write_u64}
use libquicr.CtrlTypes.Ints.{write_u64-wire}
use libquicr.TrackName.{FullTrackName, track_hash, track_hash_of, full_name_hash, low_62}

low_62_bound : (h : ℕ) → low_62 h < 2 ^ 62
low_62_bound h = omega arith

-- The full name hash of a track, from its name or from the two hashes of its parts, is below 2^62, so
-- that it can be written as a variable-length integer, whatever the hash function.
pub write_u64-track_fullname_hash :
    (hash : List ℕ → ℕ) (ftn : FullTrackName) (name_space name : ℕ) (buffer : List ℕ)
    → (let h = (track_hash hash ftn).track_fullname_hash in
        write_u64 h buffer ≡ ok (buffer ++ wire h))
      × (let h = (track_hash_of name_space name).track_fullname_hash in
          write_u64 h buffer ≡ ok (buffer ++ wire h))
unfolding track_hash track_hash_of full_name_hash
write_u64-track_fullname_hash hash ftn name_space name buffer =
    (write_u64-wire _ buffer (low_62_bound _), write_u64-wire _ buffer (low_62_bound _))
