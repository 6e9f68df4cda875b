-- ===== src/Store/Storage.antt =====
-- The creation, the connection and the cleanup of the storage in src/KVStore.cpp.
-- The first probe of `createMemoryStorage` only prints, and is left out.
use hpe_distributed_key_valu.Prelude.{
  ℕ, Bool, true, false, not, ◌&&◌, List, [], ◌∷◌, Option, none, some, if◌then◌else◌, Text, codes,
  text_eq, starts_with,
}
use hpe_distributed_key_valu.Store.Boost.{Segment}
use hpe_distributed_key_valu.Store.Defs.{StorageMode, memory, persistent}
use hpe_distributed_key_valu.Store.Platform.{
  Trouble, interprocess, foreign, Result, ok, throw, Platform,
}
use hpe_distributed_key_valu.Store.Boot.{
  Names, Boot, Act, and_then, with_world, set_storage, map_ptr, create_new, removed,
}

-- `std::string::ends_with`
unfoldable pub ends_with : Text → Text → Bool
ends_with [] suffix = text_eq [] suffix
ends_with (c ∷ s) suffix =
    let later = ends_with s suffix in if text_eq (c ∷ s) suffix then true else later

abbrev pub is_local_store : Text → Bool
is_local_store filename =
    starts_with filename (codes "local_store_node_") && ends_with filename (codes ".dat")

module _ (S : Segment) (P : Platform S) where
  open P use {World}

  -- The two loops of `cleanupStorage` over file names; an error ends them.
  unfoldable pub remove_existing : List Text → World → Option Trouble × World
  remove_existing [] w = (none, w)
  remove_existing (f ∷ files) w = elim (P.exists f w) [
    | false ↦ remove_existing files w
    | true ↦ elim (P.remove_file f w) [ throw x ↦ (some x, w) | ok w' ↦ remove_existing files w' ]
  ]

  unfoldable pub remove_local_stores : List Text → World → Option Trouble × World
  remove_local_stores [] w = (none, w)
  remove_local_stores (f ∷ files) w = elim (is_local_store f) [
    | false ↦ remove_local_stores files w
    | true ↦ elim (P.remove_file f w) [
      | throw x ↦ (some x, w)
      | ok w' ↦ remove_local_stores files w'
    ]
  ]

  abbrev pub listed : World → Result (List Text) → World
  listed w (throw x) = w
  listed w (ok files) = (remove_local_stores files w).1

  abbrev pub after_fixed : Option Trouble × World → World
  after_fixed (some x, w) = w
  after_fixed (none, w) = listed w (P.regular_files w)

module _ {S : Segment} {P : Platform S} where
  open S use {Mem}
  open P use {World}

  unfoldable pub create_memory_storage : Names → ℕ → Act S P
  create_memory_storage names size s =
      create_new memory names.shm_name size
        (with_world s (P.remove_shared_memory names.shm_name s.world))

  -- The existing file: it is used if its map is there, and else let go.
  abbrev pub found_file : Boot S P → Result Mem → Option Trouble × Bool × Boot S P
  found_file s (throw (interprocess t)) =
      (none, false, set_storage persistent none (s.kv.persistent_map_ptr) s)
  found_file s (throw (foreign t)) = (some (foreign t), false, s)
  found_file s (ok m) =
      if P.has_map m
      then (none, true, set_storage persistent (some m) true s)
      else (none, false, set_storage persistent none (s.kv.persistent_map_ptr) s)

  abbrev pub after_file : Names → ℕ → Option Trouble × Bool × Boot S P → Option Trouble × Boot S P
  after_file names size (some x, _, s) = (some x, s)
  after_file names size (none, true, s) = (none, s)
  after_file names size (none, false, s) =
      and_then (create_new persistent names.persistent_file_path size)
        (removed s (P.remove_file names.persistent_file_path s.world))

  unfoldable pub create_persistent_storage : Names → ℕ → Act S P
  create_persistent_storage names size s =
      if P.exists names.persistent_file_path s.world
      then after_file names size
          (found_file s (P.open_only persistent names.persistent_file_path s.world))
      else create_new persistent names.persistent_file_path size s

  -- What a connection makes of the segment that it opened.
  abbrev pub connected : StorageMode → Text → Boot S P → Result Mem → Option Trouble × Boot S P
  connected mode missing s (throw x) = (some x, s)
  connected mode missing s (ok m) =
      if P.has_map m
      then (none, set_storage mode (some m) true s)
      else (some (interprocess missing), set_storage mode (some m) (map_ptr mode s.kv) s)

  unfoldable pub connect_to_memory_storage : Names → Act S P
  connect_to_memory_storage names s =
      connected memory (codes "SharedMap not found in existing shared memory") s
        (P.open_only memory names.shm_name s.world)

  unfoldable pub connect_to_persistent_storage : Names → Act S P
  connect_to_persistent_storage names s =
      if not (P.exists names.persistent_file_path s.world)
      then (some (interprocess (codes "Persistent file does not exist")), s)
      else connected persistent (codes "SharedMap not found in existing persistent storage") s
          (P.open_only persistent names.persistent_file_path s.world)

  -- The errors of the file system are caught in the memory mode only.
  unfoldable pub cleanup_storage : Names → Act S P
  cleanup_storage names s = elim s.kv.storage_mode [
    | memory ↦ (
      none,
      with_world s (
          after_fixed S P (
            remove_existing S P (codes "mappings.txt" ∷ codes "local_store_node_0.dat" ∷ [])
              (P.remove_shared_memory names.shm_name s.world))),
    )
    | persistent ↦
        if P.exists names.persistent_file_path s.world
        then removed s (P.remove_file names.persistent_file_path s.world)
        else (none, s)
  ]
