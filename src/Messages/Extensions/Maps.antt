-- ===== src/Messages/Extensions/Maps.antt =====
-- The map that a receiver of serialised extensions ends with, and the whole round trip.
use libquicr.Prelude.{
  ℕ, ◌^◌, ◌<◌, ◌≡◌, ◌≢◌, refl, ap, ◌∙◌, List, [], ◌∷◌, ◌++◌, map, append_assoc, append-nil, ok,
  ◌>>=◌, length, All, arith, some, none, true, ◌==◌, if◌then◌else◌,
}
use libquicr.UintVar.Wire.{wire}
use libquicr.CtrlTypes.{KeyValuePair}
use libquicr.CtrlTypes.Pairs.{KvpFits}
use libquicr.Messages.Extensions.{Extensions, push_value, parse_extensions, pairs, write_extensions}
use libquicr.Messages.Extensions.Write.{pairs_wire, write_extensions-wire}
use libquicr.Messages.Extensions.RoundTrip.{
  PairFits, received_value, store, start, received, parse_block-wire,
}

abbrev pub pair : ℕ → List ℕ → KeyValuePair
pair key value = record { type = key; value = value }

-- The map of a sender: keys in order, each with a value.
abbrev pub IsMap : Extensions → Type 0
IsMap [] = Unit
IsMap ((k, vs) ∷ m) = (vs ≢ []) × All (λ e. k < e.0) m × IsMap m

-- Its image at the receiver.
unfoldable pub received_map : Extensions → Extensions
received_map [] = []
received_map ((k, vs) ∷ m) = (k, map (λ v. received_value (pair k v)) vs) ∷ received_map m

abbrev Below : ℕ → Extensions → Type 0
Below k m = All (λ e. e.0 < k) m

push_value_new :
    (k : ℕ) (v : List ℕ) (acc : Extensions)
    → Below k acc
    → push_value k v acc ≡ acc ++ ((k, v ∷ []) ∷ [])
unfolding push_value
push_value_new k v [] h = refl
push_value_new k v ((j, ws) ∷ acc) h = ground (arith, push_value_new k v acc h.1)

push_value_last :
    (k : ℕ) (v : List ℕ) (acc : Extensions) (ws : List (List ℕ))
    → Below k acc
    → push_value k v (acc ++ ((k, ws) ∷ [])) ≡ acc ++ ((k, ws ++ (v ∷ [])) ∷ [])
unfolding push_value
push_value_last k v [] ws h = ground arith
push_value_last k v ((j, us) ∷ acc) ws h = ground (arith, push_value_last k v acc ws h.1)

store_values :
    (k : ℕ) (vs ws : List (List ℕ)) (acc : Extensions) (ps : List KeyValuePair)
    → Below k acc
    → store (map (pair k) vs ++ ps) (some (acc ++ ((k, ws) ∷ [])))
      ≡ store ps (some (acc ++ ((k, ws ++ map (λ v. received_value (pair k v)) vs) ∷ [])))
store_values k [] ws acc ps h = rw append-nil
store_values k (v ∷ vs) ws acc ps h =
    ap (λ t. store (map (pair k) vs ++ ps) (some t))
      (push_value_last k (received_value (pair k v)) acc ws h)
    ∙ store_values k vs (ws ++ (received_value (pair k v) ∷ [])) acc ps h
    ∙ rw append_assoc

store_entry :
    (k : ℕ) (vs : List (List ℕ)) (acc : Extensions) (ps : List KeyValuePair)
    → vs ≢ []
    → Below k acc
    → store (map (pair k) vs ++ ps) (some acc)
      ≡ store ps (some (acc ++ ((k, map (λ v. received_value (pair k v)) vs) ∷ [])))
store_entry k [] acc ps n h = absurd (n refl)
store_entry k (v ∷ vs) acc ps n h =
    ap (λ t. store (map (pair k) vs ++ ps) (some t))
      (push_value_new k (received_value (pair k v)) acc h)
    ∙ store_values k vs (received_value (pair k v) ∷ []) acc ps h

Below-append :
    (k j : ℕ) (vs : List (List ℕ)) (acc : Extensions)
    → Below k acc
    → j < k
    → Below k (acc ++ ((j, vs) ∷ []))
Below-append k j vs [] h l = (l, tt)
Below-append k j vs (e ∷ acc) h l = (h.0, Below-append k j vs acc h.1 l)

All-Below_append :
    (j : ℕ) (vs : List (List ℕ)) (acc m : Extensions)
    → All (λ e. Below e.0 acc) m
    → All (λ e. j < e.0) m
    → All (λ e. Below e.0 (acc ++ ((j, vs) ∷ []))) m
All-Below_append j vs acc [] h l = tt
All-Below_append j vs acc (e ∷ m) h l =
    (Below-append e.0 j vs acc h.0 l.0, All-Below_append j vs acc m h.1 l.1)

pub store-pairs :
    (m acc : Extensions)
    → IsMap m
    → All (λ e. Below e.0 acc) m
    → store (pairs m) (some acc) ≡ some (acc ++ received_map m)
unfolding pairs received_map
store-pairs [] acc h b = rw append-nil
store-pairs ((k, vs) ∷ m) acc h b =
    store_entry k vs acc (pairs m) h.0 b.0
    ∙ store-pairs m (acc ++ ((k, image) ∷ [])) h.2 (All-Below_append k image acc m b.1 h.1)
    ∙ ap some (append_assoc acc ((k, image) ∷ []) (received_map m))
  where
    image : List (List ℕ)
    image = map (λ v. received_value (pair k v)) vs

pub All-Below_nil : (m : Extensions) → All (λ e. Below e.0 []) m
All-Below_nil [] = tt
All-Below_nil (e ∷ m) = (tt, All-Below_nil m)

-- The bytes of the pairs, which the block announces in front.
abbrev pub block_length : Extensions → ℕ
block_length m = length (pairs_wire (pairs m))

pub fits : (ps : List KeyValuePair) → All PairFits ps → All KvpFits ps
fits [] h = tt
fits (p ∷ ps) h = (h.0.0, fits ps h.1)

pub received_lem :
    (m : Extensions)
    → IsMap m
    → received (block_length m) (pairs m)
      ≡ (if block_length m == 0 then none else some (received_map m))
unfolding received
received_lem m h = rw (store-pairs m [] h (All-Below_nil m))

-- Extensions that are serialised, with keys in order, a value for each, and pairs that can be encoded,
-- are parsed to the same map, a value of even type as the eight bytes of its number; the whole block is
-- used up, and what follows it is left. An empty map is received as no map.
pub parse_extensions-write_extensions :
    (m : Extensions) (rest : List ℕ)
    → IsMap m
    → All PairFits (pairs m)
    → block_length m < 2 ^ 62
    → (do b ← write_extensions m []; parse_extensions (b ++ rest) start)
      ≡ ok (
        true,
        rest,
        record {
          headers_length = some (block_length m);
          extensions = if block_length m == 0 then none else some (received_map m);
          bytes_remaining = 0;
          current_header = none;
        },
      )
parse_extensions-write_extensions m rest h f l =
    rw
      (
        ← received_lem m h,
        write_extensions-wire m [] (fits (pairs m) f) l,
        append_assoc (wire (block_length m)) (pairs_wire (pairs m)) rest,
      )
      (parse_block-wire (pairs m) rest f l)
