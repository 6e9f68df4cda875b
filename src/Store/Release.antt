-- ===== src/Store/Release.antt =====
-- What the constructor and the destructor of src/KVStore.cpp leave under the names of the storage.
use hpe_distributed_key_valu.Prelude.{◌≡◌, refl, inl, inr, List, Option, none, some, Text}
use hpe_distributed_key_valu.Prelude.{sym, ◌∙◌, ap}
use hpe_distributed_key_valu.Store.Boost.{Segment}
use hpe_distributed_key_valu.Store.Defs.{memory, server, KvStore}
use hpe_distributed_key_valu.Store.Platform.{
  Trouble, Result, ok, throw, Result-cases, Platform, IsPlatform,
}
use hpe_distributed_key_valu.Store.Boot.{Names, Boot}
use hpe_distributed_key_valu.Store.Storage.{
  cleanup_storage, remove_existing, remove_local_stores, is_local_store, listed, after_fixed,
}
use hpe_distributed_key_valu.Store.Lifecycle.{destruct, without_map}
use hpe_distributed_key_valu.Prelude.{[], ◌∷◌, Bool-cases, ◌≢◌, codes}

module _ (S : Segment) (P : Platform S) (laws : IsPlatform S P) where
  open S use {Mem}

  -- The loops over files leave the shared memory.
  existing-opens :
      (name : Text) (files : List Text) (w : P.World)
      → P.open_only memory name (remove_existing S P files w).1 ≡ P.open_only memory name w
  unfolding remove_existing
  existing-opens name [] w = refl
  existing-opens name (f ∷ files) w = elim (Bool-cases (P.exists f w)) [
    | inr e ↦ rw (remove_existing, e) (existing-opens name files w)
    | inl e ↦ elim (Result-cases (P.remove_file f w)) [
      | inl (x, d) ↦ rw (remove_existing, e, d) refl
      | inr (w', d) ↦
          rw (remove_existing, e, d)
            (existing-opens name files w' ∙ laws.open-remove_file name f w w' d)
    ]
  ]

  local-opens :
      (name : Text) (files : List Text) (w : P.World)
      → P.open_only memory name (remove_local_stores S P files w).1 ≡ P.open_only memory name w
  unfolding remove_local_stores
  local-opens name [] w = refl
  local-opens name (f ∷ files) w = elim (Bool-cases (is_local_store f)) [
    | inr e ↦ rw e (local-opens name files w)
    | inl e ↦ elim (Result-cases (P.remove_file f w)) [
      | inl (x, d) ↦ rw (e, d) refl
      | inr (w', d) ↦ rw (e, d) (local-opens name files w' ∙ laws.open-remove_file name f w w' d)
    ]
  ]

  listed-opens :
      (name : Text) (w : P.World) (r : Result (List Text))
      → P.open_only memory name (listed S P w r) ≡ P.open_only memory name w
  listed-opens name w (throw x) = refl
  listed-opens name w (ok files) = local-opens name files w

  fixed-opens :
      (name : Text) (r : Option Trouble × P.World)
      → P.open_only memory name (after_fixed S P r) ≡ P.open_only memory name r.1
  fixed-opens name (some x, w) = refl
  fixed-opens name (none, w) = listed-opens name w (P.regular_files w)

  abbrev cleaned : Names → P.World → P.World
  cleaned names w = after_fixed S P (
      remove_existing S P (codes "mappings.txt" ∷ codes "local_store_node_0.dat" ∷ [])
        (P.remove_shared_memory names.shm_name w))

  opens :
      (names : Names) (w : P.World)
      → P.open_only memory names.shm_name (P.remove_mutex names.mutex_name (cleaned names w))
        ≡ P.open_only memory names.shm_name (P.remove_shared_memory names.shm_name w)
  opens names w =
      laws.open-remove_mutex memory names.shm_name names.mutex_name (cleaned names w)
      ∙ (fixed-opens names.shm_name _
          ∙ existing-opens names.shm_name
              (codes "mappings.txt" ∷ codes "local_store_node_0.dat" ∷ []) _)

  cleanup_cleaned :
      (names : Names) (s : Boot S P)
      → s.kv.storage_mode ≡ memory
      → (cleanup_storage names s).1.world ≡ cleaned names s.world
  unfolding cleanup_storage
  cleanup_cleaned names s d = rw d refl

  destruct-cleaned :
      (names : Names) (kv : KvStore Mem) (m : Mem) (w : P.World)
      → kv.conn_mode ≡ server
      → kv.storage_mode ≡ memory
      → kv.memory_storage ≡ some m
      → destruct S P names kv w
        ≡ P.remove_mutex names.mutex_name (
            cleaned names
              (P.commit memory names.shm_name (without_map S P memory kv.memory_map_ptr m) w))
  unfolding destruct
  destruct-cleaned names kv m w c d f =
      rw (c, d, f) (ap (P.remove_mutex names.mutex_name) (cleanup_cleaned names _ d))

  -- A memory server whose destructor ran leaves no segment under its name that another process could
  -- open, if it had a segment, whatever happened to the files that the cleanup removes.
  pub shutdown_removes :
      (names : Names) (kv : KvStore Mem) (m : Mem) (w : P.World)
      → kv.conn_mode ≡ server
      → kv.storage_mode ≡ memory
      → kv.memory_storage ≡ some m
      → (m' : Mem) → P.open_only memory names.shm_name (destruct S P names kv w) ≢ ok m'
  shutdown_removes names kv m w c d f m' o =
      laws.open-remove_shared_memory names.shm_name m'
        (P.commit memory names.shm_name (without_map S P memory kv.memory_map_ptr m) w)
        (sym (opens names _)
          ∙ (sym (ap (P.open_only memory names.shm_name) (destruct-cleaned names kv m w c d f))
              ∙ o))
