-- ===== src/Store/Startup.antt =====
-- What the constructor of src/KVStore.cpp leaves when it returns.
use mathlib.Core.Path.{subst}
use hpe_distributed_key_valu.Prelude.{
  if_all, ℕ, ◌≡◌, refl, ◌⊎◌, inl, inr, Bool, true, false, not, Option, none, some, Text, codes,
}
use hpe_distributed_key_valu.Store.Boost.{Segment}
use hpe_distributed_key_valu.Store.Defs.{
  StorageMode, memory, persistent, ConnectionMode, server, client,
}
use hpe_distributed_key_valu.Store.Platform.{
  Trouble, interprocess, foreign, Result, ok, throw, Platform,
}
use hpe_distributed_key_valu.Store.Boot.{
  Names, names_of, Boot, ◌>>◌, with_world, name_of, create_new, removed,
}
use hpe_distributed_key_valu.Store.Ensures.{Ensures, Ensures-and_then, Ensures-handled}
use hpe_distributed_key_valu.Store.Storage.{
  create_memory_storage, create_persistent_storage, connect_to_memory_storage,
  connect_to_persistent_storage, cleanup_storage, found_file, after_file,
}
use hpe_distributed_key_valu.Store.Lifecycle.{
  create_storage, connect_to_storage, make_mutex, remove_mutex, start_up, reopened, rebuild_storage,
  recover, construct,
}
use hpe_distributed_key_valu.Store.Ready.{
  IsReady, IsReadyAt, IsKept, Readies, Keeps, IsReady-set, Ready-connected, Ready-create_new,
}

module _ (S : Segment) (P : Platform S) where
  open S use {Mem}

  module _ (names : Names) (size : ℕ) where
    Ready-create_memory :
        (s : Boot S P)
        → IsKept S P memory s
        → Readies S P memory (create_memory_storage names size s)
    unfolding create_memory_storage
    Ready-create_memory s =
        Ready-create_new S P memory names.shm_name size
          (with_world s (P.remove_shared_memory names.shm_name s.world))

    Kept-removed :
        (mode : StorageMode) (s : Boot S P) (r : Result P.World)
        → IsKept S P mode s
        → Keeps S P mode (removed s r)
    Kept-removed mode s (throw x) k = k
    Kept-removed mode s (ok w) k = k

    Ready-removed :
        (mode : StorageMode) (s : Boot S P) (r : Result P.World)
        → IsReadyAt S P mode s
        → Readies S P mode (removed s r)
    Ready-removed mode s (throw x) h = h.kept
    Ready-removed mode s (ok w) h = h

    abbrev Found : Option Trouble × Bool × Boot S P → Type 0
    Found (some x, _, s) = IsKept S P persistent s
    Found (none, true, s) = IsReadyAt S P persistent s
    Found (none, false, s) = IsKept S P persistent s

    Found-found_file :
        (s : Boot S P) (r : Result Mem) → IsKept S P persistent s → Found (found_file s r)
    Found-found_file s (throw (interprocess t)) k = k
    Found-found_file s (throw (foreign t)) k = k
    Found-found_file s (ok m) k =
        if_all Found (P.has_map m) (λ e. IsReady-set S P persistent m true s k (inl refl)) (λ e. k)

    Ready-after_file :
        (r : Option Trouble × Bool × Boot S P)
        → Found r
        → Readies S P persistent (after_file names size r)
    Ready-after_file (some x, _, s) h = h
    Ready-after_file (none, true, s) h = h
    Ready-after_file (none, false, s) h =
        Ensures-and_then (IsKept S P persistent) (IsReadyAt S P persistent) (IsKept S P persistent)
          (create_new persistent names.persistent_file_path size)
          (removed s (P.remove_file names.persistent_file_path s.world))
          (Kept-removed persistent s (P.remove_file names.persistent_file_path s.world) h)
          (Ready-create_new S P persistent names.persistent_file_path size)

    Ready-create_persistent :
        (s : Boot S P)
        → IsKept S P persistent s
        → Readies S P persistent (create_persistent_storage names size s)
    unfolding create_persistent_storage
    Ready-create_persistent s k =
        if_all (Readies S P persistent) (P.exists names.persistent_file_path s.world)
          (λ e.
            Ready-after_file
              (found_file s (P.open_only persistent names.persistent_file_path s.world))
              (Found-found_file s (P.open_only persistent names.persistent_file_path s.world) k))
          (λ e. Ready-create_new S P persistent names.persistent_file_path size s k)

    Ready-create :
        (mode : StorageMode) (s : Boot S P)
        → IsKept S P mode s
        → Readies S P mode (create_storage mode names size s)
    Ready-create memory = Ready-create_memory
    Ready-create persistent = Ready-create_persistent

    Ready-connect :
        (mode : StorageMode) (s : Boot S P)
        → IsKept S P mode s
        → Readies S P mode (connect_to_storage mode names s)
    unfolding connect_to_memory_storage connect_to_persistent_storage
    Ready-connect memory s k =
        Ready-connected S P memory (codes "SharedMap not found in existing shared memory") s
          (P.open_only memory names.shm_name s.world) k
    Ready-connect persistent s k =
        if_all (Readies S P persistent) (not (P.exists names.persistent_file_path s.world)) (λ e. k)
          (λ e.
            Ready-connected S P persistent
              (codes "SharedMap not found in existing persistent storage") s
              (P.open_only persistent names.persistent_file_path s.world) k)

    Ready-make_mutex :
        (mode : StorageMode) (s : Boot S P)
        → IsReadyAt S P mode s
        → Readies S P mode (make_mutex names s)
    Ready-make_mutex mode s = Ready-removed mode s (P.open_or_create_mutex names.mutex_name s.world)

    Ready-start_up :
        (mode : StorageMode) (conn : ConnectionMode) (s : Boot S P)
        → IsKept S P mode s
        → Readies S P mode (start_up names size mode conn s)
    unfolding start_up
    Ready-start_up mode server s k =
        Ensures-and_then (IsReadyAt S P mode) (IsReadyAt S P mode) (IsKept S P mode)
          (make_mutex names) ((create_storage mode names size >> remove_mutex names) s)
          (Ensures-and_then (IsReadyAt S P mode) (IsReadyAt S P mode) (IsKept S P mode)
            (remove_mutex names) (create_storage mode names size s) (Ready-create mode s k)
            (λ s' h. h))
          (Ready-make_mutex mode)
    Ready-start_up mode client s k =
        Ensures-and_then (IsReadyAt S P mode) (IsReadyAt S P mode) (IsKept S P mode)
          (make_mutex names) (connect_to_storage mode names s) (Ready-connect mode s k)
          (Ready-make_mutex mode)

    Kept-cleanup :
        (mode : StorageMode) (s : Boot S P)
        → IsKept S P mode s
        → Keeps S P mode (cleanup_storage names s)
    unfolding cleanup_storage
    Kept-cleanup memory s k = rw k refl
    Kept-cleanup persistent s k = rw k (
        if_all (Keeps S P persistent) (P.exists names.persistent_file_path s.world)
          (λ e. Kept-removed persistent _ (P.remove_file names.persistent_file_path s.world) refl)
          (λ e. refl))

    Ready-reopened :
        (mode : StorageMode) (s : Boot S P) (r : Result Mem)
        → IsKept S P mode s
        → Readies S P mode (reopened mode s r)
    Ready-reopened mode s (throw x) k = k
    Ready-reopened mode s (ok m) k =
        IsReady-set S P mode m (P.has_map m) s k (as_found (P.has_map m) refl)
      where
        as_found :
            (found : Bool)
            → P.has_map m ≡ found
            → (found ≡ true) ⊎ ((found ≡ false) × (P.has_map m ≡ false))
        as_found true e = inl refl
        as_found false e = inr (refl, e)

    Ready-rebuild :
        (mode : StorageMode) (s : Boot S P)
        → IsKept S P mode s
        → Readies S P mode (rebuild_storage names size mode s)
    Ready-rebuild mode s k =
        Ensures-and_then (IsReadyAt S P mode) (IsReadyAt S P mode) (IsKept S P mode)
          (make_mutex names) _
          (Ensures-and_then (IsKept S P mode) (IsReadyAt S P mode) (IsKept S P mode)
            (create_storage mode names size) _
            (Ensures-and_then (IsKept S P mode) (IsKept S P mode) (IsKept S P mode)
              (remove_mutex names) (cleanup_storage names s) (Kept-cleanup mode s k) (λ s' h. h))
            (Ready-create mode))
          (Ready-make_mutex mode)

    Ready-recover :
        (mode : StorageMode) (conn : ConnectionMode) (t : Text) (s : Boot S P)
        → IsKept S P mode s
        → Readies S P mode (recover names size mode conn t s)
    unfolding recover
    Ready-recover mode client t s k = k
    Ready-recover mode server t s k =
        Ensures-handled (IsReadyAt S P mode) (IsKept S P mode)
          (λ _. rebuild_storage names size mode)
          (reopened mode s (P.open_only mode (name_of mode names) s.world))
          (Ready-reopened mode s (P.open_only mode (name_of mode names) s.world) k)
          (λ t'. Ready-rebuild mode)

  -- However the constructor returns, by creation, connection or recovery, the store of a node holds
  -- the segment of its storage mode, and its map pointer is null only where that segment has no map.
  pub construct-IsReady :
      (size : ℕ) (mode : StorageMode) (conn : ConnectionMode) (node_tag : Text) (w : P.World)
      (s : Boot S P)
      → construct S P size mode conn node_tag w ≡ (none, s)
      → IsReady S P mode s.kv
  unfolding construct
  construct-IsReady size mode conn node_tag w s e =
      subst (Ensures (IsReadyAt S P mode) (IsKept S P mode)) e (
        Ensures-handled (IsReadyAt S P mode) (IsKept S P mode) (recover names size mode conn)
          (start_up names size mode conn _) (Ready-start_up names size mode conn _ refl)
          (Ready-recover names size mode conn))
    where
      names : Names
      names = names_of node_tag
