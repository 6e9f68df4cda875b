-- ===== src/Store/Connection.antt =====
-- About a client's store in src/KVStore.cpp, which connects to what a server made.
use hpe_distributed_key_valu.Prelude.{if_all, ℕ, ◌≡◌, refl, Bool, true, not, Option, some, Text}
use mathlib.Core.Path.{subst}
use hpe_distributed_key_valu.Store.Boost.{Segment}
use hpe_distributed_key_valu.Store.Defs.{StorageMode, memory, persistent, client}
use hpe_distributed_key_valu.Store.Platform.{Result, ok, throw, Platform}
use hpe_distributed_key_valu.Store.Boot.{
  Names, names_of, Boot, set_storage, map_ptr, name_of, removed, storage_of,
}
use hpe_distributed_key_valu.Store.Storage.{
  connect_to_memory_storage, connect_to_persistent_storage, connected,
}
use hpe_distributed_key_valu.Store.Lifecycle.{
  connect_to_storage, make_mutex, start_up, recover, construct,
}
use hpe_distributed_key_valu.Store.Ensures.{Ensures, Ensures-and_then, Ensures-handled}

module _ (S : Segment) (P : Platform S) where
  open S use {Mem}

  -- The store holds the segment that was there in `w`, with its map, and only the mutex was opened.
  pub record IsConnected (mode : StorageMode) (names : Names) (w : P.World) (s : Boot S P)
      : Type 0 where
    pub segment : Mem
    pub opens : P.open_only mode (name_of mode names) w ≡ ok segment
    pub mapped : P.has_map segment ≡ true
    pub held : storage_of mode s.kv ≡ some segment
    pub found : map_ptr mode s.kv ≡ true
    pub mutex : P.open_or_create_mutex names.mutex_name w ≡ ok s.world

  -- The step before the mutex.
  record IsFound (mode : StorageMode) (names : Names) (w : P.World) (s : Boot S P) : Type 0 where
    segment : Mem
    opens : P.open_only mode (name_of mode names) w ≡ ok segment
    mapped : P.has_map segment ≡ true
    held : storage_of mode s.kv ≡ some segment
    found : map_ptr mode s.kv ≡ true
    same : s.world ≡ w

  abbrev pub Untouched : P.World → Boot S P → Type 0
  Untouched w s = s.world ≡ w

  set_storage-world :
      (mode : StorageMode) (m : Option Mem) (found : Bool) (s : Boot S P)
      → (set_storage mode m found s).world ≡ s.world
  set_storage-world memory m found s = refl
  set_storage-world persistent m found s = refl

  IsFound-set :
      (mode : StorageMode) (names : Names) (s : Boot S P) (m : Mem)
      → P.open_only mode (name_of mode names) s.world ≡ ok m
      → P.has_map m ≡ true
      → IsFound mode names s.world (set_storage mode (some m) true s)
  IsFound-set memory names s m o h = record {
    segment = m;
    opens = o;
    mapped = h;
    held = refl;
    found = refl;
    same = refl;
  }
  IsFound-set persistent names s m o h = record {
    segment = m;
    opens = o;
    mapped = h;
    held = refl;
    found = refl;
    same = refl;
  }

  Found-connected :
      (mode : StorageMode) (names : Names) (missing : Text) (s : Boot S P) (r : Result Mem)
      → P.open_only mode (name_of mode names) s.world ≡ r
      → Ensures (IsFound mode names s.world) (Untouched s.world) (connected mode missing s r)
  Found-connected mode names missing s (throw x) e = refl
  Found-connected mode names missing s (ok m) e =
      if_all (Ensures (IsFound mode names s.world) (Untouched s.world)) (P.has_map m)
        (λ h. IsFound-set mode names s m e h)
        (λ h. set_storage-world mode (some m) (map_ptr mode s.kv) s)

  Found-connect :
      (mode : StorageMode) (names : Names) (s : Boot S P)
      → Ensures (IsFound mode names s.world) (Untouched s.world) (connect_to_storage mode names s)
  unfolding connect_to_memory_storage connect_to_persistent_storage
  Found-connect memory names s = Found-connected memory names _ s _ refl
  Found-connect persistent names s =
      if_all (Ensures (IsFound persistent names s.world) (Untouched s.world))
        (not (P.exists names.persistent_file_path s.world)) (λ h. refl)
        (λ h. Found-connected persistent names _ s _ refl)

  Connected-make_mutex :
      (mode : StorageMode) (names : Names) (w : P.World) (s : Boot S P)
      → IsFound mode names w s
      → Ensures (IsConnected mode names w) (Untouched w) (make_mutex names s)
  Connected-make_mutex mode names w s h =
      by_result (P.open_or_create_mutex names.mutex_name s.world) refl
    where
      by_result :
          (r : Result P.World)
          → P.open_or_create_mutex names.mutex_name s.world ≡ r
          → Ensures (IsConnected mode names w) (Untouched w) (removed s r)
      by_result (throw x) e = h.same
      by_result (ok w') e = record {
        segment = h.segment;
        opens = h.opens;
        mapped = h.mapped;
        held = h.held;
        found = h.found;
        mutex = subst (λ v. P.open_or_create_mutex names.mutex_name v ≡ ok w') h.same e;
      }

  -- A client makes and removes no storage. When its store is made, the segment of its mode had opened
  -- with the map, the store holds this segment, and the mutex had opened; when its constructor
  -- throws, the storage and the mutex are as they were.
  pub client_connects :
      (size : ℕ) (mode : StorageMode) (node_tag : Text) (w : P.World)
      → Ensures
          (IsConnected mode (names_of node_tag) w)
          (Untouched w)
          (construct S P size mode client node_tag w)
  unfolding construct start_up recover
  client_connects size mode node_tag w =
      Ensures-handled (IsConnected mode (names_of node_tag) w) (Untouched w)
        (recover (names_of node_tag) size mode client) _
        (Ensures-and_then (IsFound mode (names_of node_tag) w)
          (IsConnected mode (names_of node_tag) w) (Untouched w) (make_mutex (names_of node_tag)) _
          (Found-connect mode (names_of node_tag) _)
          (Connected-make_mutex mode (names_of node_tag) w))
        (λ t s h. h)
