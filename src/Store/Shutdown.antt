-- ===== src/Store/Shutdown.antt =====
-- The destructor of src/KVStore.cpp, and the start of the node that follows it.
use hpe_distributed_key_valu.Prelude.{ℕ, ◌≡◌, refl, Bool, true, Option, none, some, Text, ℤ}
use mathlib.Core.Path.{subst}
use hpe_distributed_key_valu.Prelude.{◌∙◌}
use hpe_distributed_key_valu.Store.Boost.{Segment, IsMap}
use hpe_distributed_key_valu.Store.Defs.{StorageMode, memory, persistent, server, KvStore}
use hpe_distributed_key_valu.Store.Platform.{Trouble, Result, ok, throw, Platform, IsPlatform}
use hpe_distributed_key_valu.Store.Boot.{
  Names, Boot, flushed, and_then, with_world, set_storage, with_map, with_segment, create_new,
  removed, storage_of,
}
use hpe_distributed_key_valu.Store.Storage.{create_memory_storage, create_persistent_storage}
use hpe_distributed_key_valu.Store.Lifecycle.{make_mutex, remove_mutex, start_up, blank, destruct}
use hpe_distributed_key_valu.Store.Ensures.{Ensures}

some_inj : {A : Type 0} {a b : A} → some a ≡ some b → a ≡ b
some_inj h = cc

module _ (S : Segment) (P : Platform S) (maps : IsMap S) (laws : IsPlatform S P) where
  open S use {Mem}

  -- No key has a value in the segment.
  abbrev IsEmpty : StorageMode → Boot S P → Type 0
  IsEmpty mode s = (left : Mem) → storage_of mode s.kv ≡ some left → (j : ℤ) → S.find j left ≡ none

  abbrev Empties : StorageMode → Option Trouble × Boot S P → Type 0
  Empties mode = Ensures (IsEmpty mode) (λ _. Unit)

  IsEmpty-set :
      (mode : StorageMode) (m : Mem) (found : Bool) (s : Boot S P)
      → ((j : ℤ) → S.find j m ≡ none)
      → IsEmpty mode (set_storage mode (some m) found s)
  IsEmpty-set memory m found s h left o j = rw (← some_inj o) (h j)
  IsEmpty-set persistent m found s h left o j = rw (← some_inj o) (h j)

  empty_flushed :
      (mode : StorageMode) (m m' : Mem)
      → P.construct_map m ≡ ok m'
      → (j : ℤ) → S.find j (flushed S mode m') ≡ none
  empty_flushed memory m m' e j = laws.find-construct_map j m m' e
  empty_flushed persistent m m' e j = maps.find-flush j m' ∙ laws.find-construct_map j m m' e

  Empties-with_map :
      (mode : StorageMode) (name : Text) (m : Mem) (s : Boot S P) (r : Result Mem)
      → P.construct_map m ≡ r
      → Empties mode (with_map mode name m s r)
  Empties-with_map mode name m s (throw x) e = tt
  Empties-with_map mode name m s (ok m') e =
      IsEmpty-set mode (flushed S mode m') true
        (with_world s (P.commit mode name (flushed S mode m') s.world)) (empty_flushed mode m m' e)

  Empties-create_new :
      (mode : StorageMode) (name : Text) (size : ℕ) (s : Boot S P)
      → Empties mode (create_new mode name size s)
  unfolding create_new
  Empties-create_new mode name size s = from_segment (P.create_only mode name size s.world)
    where
      from_segment : (r : Result (Mem × P.World)) → Empties mode (with_segment mode name s r)
      from_segment (throw x) = tt
      from_segment (ok (m, w)) =
          Empties-with_map mode name m (with_world s w) (P.construct_map m) refl

  -- The rest of a start changes no storage.
  Empties-started :
      (mode : StorageMode) (names : Names) (r : Option Trouble × Boot S P)
      → Empties mode r
      → Empties mode (and_then (make_mutex names) (and_then (remove_mutex names) r))
  Empties-started mode names (some x, s) h = tt
  Empties-started mode names (none, s) h =
      made (P.open_or_create_mutex names.mutex_name (P.remove_mutex names.mutex_name s.world))
    where
      made :
          (r : Result P.World)
          → Empties mode (removed (with_world s (P.remove_mutex names.mutex_name s.world)) r)
      made (throw x) = tt
      made (ok w) = h

  -- A server of the memory mode starts with an empty map, whatever segment, files and mutex an earlier
  -- process left, when its start meets no exception.
  pub memory_starts_empty :
      (names : Names) (size : ℕ) (s s' : Boot S P)
      → start_up names size memory server s ≡ (none, s')
      → (left : Mem) → s'.kv.memory_storage ≡ some left
      → (j : ℤ) → S.find j left ≡ none
  unfolding start_up create_memory_storage
  memory_starts_empty names size s s' e =
      subst (Empties memory) e
        (Empties-started memory names _ (Empties-create_new memory names.shm_name size _))

  -- The file that the destructor leaves: it has no map.
  destruct_unmaps :
      (names : Names) (kv : KvStore Mem) (m m0 : Mem) (w : P.World)
      → kv.conn_mode ≡ server
      → kv.storage_mode ≡ persistent
      → kv.file_storage ≡ some m
      → kv.persistent_map_ptr ≡ true
      → P.open_only persistent names.persistent_file_path w ≡ ok m0
      → P.open_only persistent names.persistent_file_path (destruct S P names kv w)
        ≡ ok (P.destroy_map (S.flush m))
  unfolding destruct
  destruct_unmaps names kv m m0 w c d f p o =
      rw (c, d, f, p, laws.open-remove_mutex)
        (laws.open-commit persistent names.persistent_file_path m0 (P.destroy_map (S.flush m)) w o)

  destruct_exists :
      (names : Names) (kv : KvStore Mem) (m : Mem) (w : P.World)
      → kv.conn_mode ≡ server
      → kv.storage_mode ≡ persistent
      → kv.file_storage ≡ some m
      → P.exists names.persistent_file_path (destruct S P names kv w)
        ≡ P.exists names.persistent_file_path w
  unfolding destruct
  destruct_exists names kv m w c d f =
      rw (c, d, f, laws.exists-remove_mutex, laws.exists-commit) refl

  -- A persistent server whose destructor ran and that is started again, without an exception, has an
  -- empty map: the destructor destroys the map in the file, so a clean stop loses every pair. The
  -- file is there before the stop, and the server has it with its map.
  pub shutdown_forgets :
      (names : Names) (kv : KvStore Mem) (m m0 : Mem) (w : P.World) (size : ℕ) (s' : Boot S P)
      → kv.conn_mode ≡ server
      → kv.storage_mode ≡ persistent
      → kv.file_storage ≡ some m
      → kv.persistent_map_ptr ≡ true
      → P.exists names.persistent_file_path w ≡ true
      → P.open_only persistent names.persistent_file_path w ≡ ok m0
      → start_up names size persistent server
          (record { kv = blank S P size persistent server; world = destruct S P names kv w })
        ≡ (none, s')
      → (left : Mem) → s'.kv.file_storage ≡ some left
      → (j : ℤ) → S.find j left ≡ none
  unfolding start_up create_persistent_storage
  shutdown_forgets names kv m m0 w size s' c d f p x o e = subst (Empties persistent) e (
      rw
        (
          destruct_exists names kv m w c d f,
          x,
          destruct_unmaps names kv m m0 w c d f p o,
          laws.has_map-destroy_map,
        )
        (Empties-started persistent names _ recreated))
    where
      start : Boot S P
      start = record { kv = blank S P size persistent server; world = destruct S P names kv w }

      recreated : Empties persistent (
          and_then
            (create_new persistent names.persistent_file_path size)
            (removed start (P.remove_file names.persistent_file_path start.world)))
      recreated = by_removal (P.remove_file names.persistent_file_path start.world)
        where
          by_removal :
              (r : Result P.World)
              → Empties persistent (
                  and_then
                    (create_new persistent names.persistent_file_path size)
                    (removed start r))
          by_removal (throw t) = tt
          by_removal (ok w') =
              Empties-create_new persistent names.persistent_file_path size (with_world start w')
