-- ===== src/Cache.antt =====
-- include/quicr/cache.h: a map whose keys are erased when their bucket's time has passed.
-- Keys are numbers in their order and the map is a list sorted by key. `TickService::Milliseconds()`
-- is the argument `now`. `Get` returns a null pointer, here `none`, for a key that is not there.
pub mod Map
pub mod Keys
pub mod Invariant
pub mod Expiry
pub mod Lifetime
pub mod Runs
mod Tests
use libquicr.Prelude.{
  ℕ, suc, ◌+◌, ◌/◌, ◌%◌, Bool, true, false, ◌||◌, not, Option, none, some, List, [], ◌∷◌, ◌++◌,
  Outcome, ok, throws, undefined, invalid_argument, ltb, leb, ◌==◌, sub64, u64, u32, if◌then◌else◌,
  length, get_or, set, replicate, ◌>>=◌, zero, is_nil,
}
use libquicr.Cache.Map.{lookup, assign, erase, lower_bound, upper_bound, first, last, is_some}

pub record Cache (A : Type 0) : Type 0 where
  pub duration : ℕ
  pub interval : ℕ
  pub total_buckets : ℕ
  pub bucket_index : ℕ
  pub current_ticks : ℕ
  pub buckets : List (List ℕ)
  pub cache : List (ℕ × A)

abbrev pub erase_all : {A : Type 0} → List ℕ → List (ℕ × A) → List (ℕ × A)
erase_all [] m = m
erase_all (k ∷ ks) m = erase_all ks (erase k m)

module _ {A : Type 0} where
  -- The constructor, with a tick service. `duration / interval` by 0 is undefined.
  unfoldable pub new : ℕ → ℕ → Outcome (Cache A)
  new duration interval =
      if interval == 0
      then undefined
      else if (duration == 0 || not (duration % interval == 0)) || duration == interval
      then throws invalid_argument
      else ok (record {
        duration = duration;
        interval = interval;
        total_buckets = duration / interval;
        bucket_index = 0;
        current_ticks = 0;
        buckets = replicate (duration / interval) [];
        cache = [];
      })

  unfoldable pub size : Cache A → ℕ
  size c = length c.cache

  unfoldable pub empty : Cache A → Bool
  empty c = is_nil c.cache

  unfoldable pub clear : Cache A → Cache A
  clear c = record c { cache = []; bucket_index = 0; buckets = replicate (length c.buckets) [] }

  -- One turn of the loop in `Advance`: the bucket's keys are erased, then the bucket.
  abbrev pub expire : ℕ → Cache A → Cache A
  expire i c = record c {
    cache = erase_all (get_or c.buckets i []) c.cache;
    buckets = set c.buckets i [];
  }

  -- The loop in `Advance`, `n` turns from `i` on; `bucket_index` is its start and stays there.
  abbrev pub expire_from : ℕ → ℕ → Cache A → Cache A
  expire_from zero i c = c
  expire_from (suc n) i c =
      expire_from n (suc i) (expire (u64 (c.bucket_index + i) % c.total_buckets) c)

  unfoldable pub delta_ticks : ℕ → Cache A → ℕ
  delta_ticks now c = if c.current_ticks == 0 then 0 else sub64 now c.current_ticks / c.interval

  -- `Advance()`
  unfoldable pub advance : ℕ → Cache A → Cache A
  advance now c =
      let delta = delta_ticks now c in
      let c' = record c { current_ticks = now } in
      if delta == 0
      then c'
      else if leb c.total_buckets delta
      then clear c'
      else record (expire_from delta 0 c') {
        bucket_index = u32 (u64 (c.bucket_index + delta) % c.total_buckets);
      }

  -- `InternalInsert` behind its checks, on the advanced cache; `ttl` is in intervals.
  unfoldable pub store : ℕ → A → ℕ → Cache A → Cache A
  store key value ttl c =
      let future = u32 (sub64 (u64 (c.bucket_index + ttl)) 1 % c.total_buckets) in
      record c {
        buckets = set c.buckets future (get_or c.buckets future [] ++ (key ∷ []));
        cache = assign key value c.cache;
      }

  -- `Insert(key, value, ttl)`
  unfoldable pub insert : ℕ → A → ℕ → ℕ → Cache A → Outcome (Cache A)
  insert key value ttl now c =
      if ltb c.duration ttl
      then throws invalid_argument
      else ok
          (store key value ((if ttl == 0 then c.duration else ttl) / c.interval) (advance now c))

  -- `Contains(key)`
  unfoldable pub contains : ℕ → ℕ → Cache A → Cache A × Bool
  contains key now c = let c' = advance now c in (c', is_some (lookup key c'.cache))

  -- `Contains(start_key, end_key)`: the two bounds are the same place when as much is behind them.
  unfoldable pub contains_range : ℕ → ℕ → ℕ → Cache A → Outcome (Cache A × Bool)
  contains_range start end now c =
      if ltb end start
      then throws invalid_argument
      else (let c' = advance now c in
          ok (c', not (length (lower_bound start c'.cache) == length (upper_bound end c'.cache))))

  -- `Get(key)`
  unfoldable pub get : ℕ → ℕ → Cache A → Cache A × Option A
  get key now c = let r = contains key now c in (r.0, if r.1 then lookup key r.0.cache else none)

  -- The loop of `Get(start_key, end_key)`
  abbrev pub collect : ℕ → List (ℕ × A) → List A
  collect end [] = []
  collect end ((k, a) ∷ m) = a ∷ (if k == end then [] else collect end m)

  -- The entries from `find(key)` on, none of them where it is `end()`.
  abbrev pub find : ℕ → List (ℕ × A) → List (ℕ × A)
  find key [] = []
  find key ((j, a) ∷ m) = if key == j then (j, a) ∷ m else find key m

  abbrev pub get_found : ℕ → ℕ → Cache A × Bool → Cache A × List A
  get_found start end (c, found) = (c, if found then collect end (find start c.cache) else [])

  -- `Get(start_key, end_key)`
  unfoldable pub get_range : ℕ → ℕ → ℕ → Cache A → Outcome (Cache A × List A)
  get_range start end now c = contains_range start end now c >>= (λ r. ok (get_found start end r))

  -- `First()` and `Last()`
  unfoldable pub get_first : ℕ → Cache A → Cache A × Option A
  get_first now c = let c' = advance now c in (c', first c'.cache)

  unfoldable pub get_last : ℕ → Cache A → Cache A × Option A
  get_last now c = let c' = advance now c in (c', last c'.cache)
