-- ===== src/Storage/Cache.antt =====
-- What the storage manager promises, without files, counters and a byte count: a cache from names to
-- bytes that forgets what was used least recently.
pub mod View
pub mod Refinement
use s2_decentralised_storage.Prelude.{
  ℕ, ◌+◌, ◌≤◌, ◌<◌, ◌≡◌, Bool, Option, none, some, List, [], ◌∷◌, Bytes, length, bytes_discrete,
  ite,
}
use s2_decentralised_storage.Cpp.Decimal.{u64_mod}
use s2_decentralised_storage.Storage.{
  StorageManager, Result, ok, throw, store_chunk, load_chunk, delete_chunk, set_max_bytes,
  has_chunk, is_found,
}
use s2_decentralised_storage.Storage.Store.{HasRoom, Fits}

-- The bytes under a name, and when they were used last.
pub record Cached : Type 0 where
  pub bytes : Bytes
  pub used_at : ℕ

abbrev pub Cache : Type 0
Cache = Bytes → Option Cached

abbrev pub put : Bytes → Cached → Cache → Cache
put id c m j = ite (bytes_discrete j id) (some c) (m j)

abbrev pub erase : Bytes → Cache → Cache
erase id m j = ite (bytes_discrete j id) none (m j)

-- Later than every use so far.
abbrev pub IsFresh : ℕ → Cache → Type 0
IsFresh stamp m = (j : Bytes) (c : Cached) → m j ≡ some c → c.used_at < stamp

-- A part of the cache is left, and nothing that is left was used before something that went.
pub record Evicts (m n : Cache) : Type 0 where
  pub part : (j : Bytes) (c : Cached) → n j ≡ some c → m j ≡ some c
  pub recent :
      (i j : Bytes) (c d : Cached)
      → m i ≡ some c
      → n i ≡ none
      → n j ≡ some d
      → c.used_at ≤ d.used_at

pub data Call : Type 0 where
  store : Bytes → Bytes → Call
  load : Bytes → Call
  delete : Bytes → Call
  has : Bytes → Call
  limit : ℕ → Call

pub data Answer : Type 0 where
  done failed : Answer
  loaded : Bytes → Answer
  found : Bool → Answer

-- What a call may answer and leave. A name that the cache does not have may be answered from a file
-- that could not be removed.
pub data Step (m n : Cache) : Call → Answer → Type 0 where
  stored :
      (id bytes : Bytes) (stamp : ℕ)
      → IsFresh stamp m
      → Evicts (put id (record { bytes = bytes; used_at = stamp }) m) n
      → n id ≡ some (record { bytes = bytes; used_at = stamp })
      → Step m n (store id bytes) done
  hit :
      (id : Bytes) (c : Cached) (stamp : ℕ)
      → m id ≡ some c
      → IsFresh stamp m
      → n ≡ put id (record c { used_at = stamp }) m
      → Step m n (load id) (loaded c.bytes)
  missed : (id : Bytes) (a : Answer) → m id ≡ none → n ≡ m → Step m n (load id) a
  deleted : (id : Bytes) → n ≡ erase id m → Step m n (delete id) done
  asked : (id : Bytes) → n ≡ m → Step m n (has id) (found (is_found (m id)))
  limited : (max : ℕ) → Evicts m n → Step m n (limit max) done

-- The steps of a history, up to the last cache.
pub data Steps (last : Cache) : Cache → List (Call × Answer) → Type 0 where
  here : Steps last last []
  next :
      {m n : Cache} {c : Call} {a : Answer} {h : List (Call × Answer)}
      → Step m n c a
      → Steps last n h
      → Steps last m ((c, a) ∷ h)

-- The manager's method, and what it returns or that it throws.
unfoldable pub stored_answer : Result (Unit {0}) → Answer
stored_answer (ok _) = done
stored_answer (throw e) = failed

unfoldable pub loaded_answer : Result Bytes → Answer
loaded_answer (ok bytes) = loaded bytes
loaded_answer (throw e) = failed

unfoldable pub perform : StorageManager → Call → StorageManager × Answer
unfolding stored_answer loaded_answer
perform s (store id bytes) = let (t, r) = store_chunk s id bytes in (t, stored_answer r)
perform s (load id) = let (t, r) = load_chunk s id in (t, loaded_answer r)
perform s (delete id) = (delete_chunk s id, done)
perform s (has id) = (s, found (has_chunk s id))
perform s (limit max) = (set_max_bytes s max, done)

-- The counters do not wrap around, and a store succeeds with a chunk that fits under the limit.
abbrev pub IsReady : StorageManager → Call → Answer → Type 0
IsReady s (store id bytes) a = HasRoom s id (length bytes) × Fits s (length bytes) × (a ≡ done)
IsReady s (load id) a = s.access_counter + 1 < u64_mod
IsReady s (delete id) a = Unit {0}
IsReady s (has id) a = Unit {0}
IsReady s (limit max) a = Unit {0}

-- A manager answers some calls, one after the other, and is at last in a state.
pub data Run (last : StorageManager) : StorageManager → List (Call × Answer) → Type 0 where
  here : Run last last []
  next :
      {s t : StorageManager} {c : Call} {a : Answer} {h : List (Call × Answer)}
      → IsReady s c a
      → perform s c ≡ (t, a)
      → Run last t h
      → Run last s ((c, a) ∷ h)
