-- ===== src/Store/Ready.antt =====
-- What the steps of the constructor of src/KVStore.cpp make of the segment of the storage mode.
use hpe_distributed_key_valu.Prelude.{
  if_all, ℕ, ◌≡◌, refl, ◌⊎◌, inl, Bool, true, false, Option, some, Text,
}
use hpe_distributed_key_valu.Store.Boost.{Segment}
use hpe_distributed_key_valu.Store.Defs.{StorageMode, memory, persistent, KvStore}
use hpe_distributed_key_valu.Store.Platform.{Trouble, Result, ok, throw, Platform}
use hpe_distributed_key_valu.Store.Boot.{
  Boot, flushed, with_world, set_storage, map_ptr, with_map, with_segment, create_new, storage_of,
}
use hpe_distributed_key_valu.Store.Storage.{connected}
use hpe_distributed_key_valu.Store.Ensures.{Ensures}

module _ (S : Segment) (P : Platform S) where
  open S use {Mem}

  -- The store has the segment of its mode, and the map pointer is set, or the segment has no map.
  pub record IsReady (mode : StorageMode) (kv : KvStore Mem) : Type 0 where
    pub kept : kv.storage_mode ≡ mode
    pub left : Mem
    pub opened : storage_of mode kv ≡ some left
    pub pointer : (map_ptr mode kv ≡ true) ⊎ ((map_ptr mode kv ≡ false) × (P.has_map left ≡ false))

  abbrev pub IsReadyAt : StorageMode → Boot S P → Type 0
  IsReadyAt mode s = IsReady mode s.kv

  module _ (mode : StorageMode) where
    abbrev pub IsKept : Boot S P → Type 0
    IsKept s = s.kv.storage_mode ≡ mode

    abbrev pub Readies : Option Trouble × Boot S P → Type 0
    Readies = Ensures (IsReadyAt mode) IsKept

    abbrev pub Keeps : Option Trouble × Boot S P → Type 0
    Keeps = Ensures IsKept IsKept

    pub IsKept-set :
        (m : Option Mem) (found : Bool) (s : Boot S P)
        → IsKept s
        → IsKept (set_storage mode m found s)
    IsKept-set m found s k = by_mode mode k
      where
        by_mode :
            (mode : StorageMode)
            → s.kv.storage_mode ≡ mode
            → (set_storage mode m found s).kv.storage_mode ≡ mode
        by_mode memory k = k
        by_mode persistent k = k

    pub IsReady-set :
        (m : Mem) (found : Bool) (s : Boot S P)
        → IsKept s
        → (found ≡ true) ⊎ ((found ≡ false) × (P.has_map m ≡ false))
        → IsReadyAt mode (set_storage mode (some m) found s)
    IsReady-set m found s k h = by_mode mode k
      where
        by_mode :
            (mode : StorageMode)
            → s.kv.storage_mode ≡ mode
            → IsReadyAt mode (set_storage mode (some m) found s)
        by_mode memory k = record { kept = k; left = m; opened = refl; pointer = h }
        by_mode persistent k = record { kept = k; left = m; opened = refl; pointer = h }

    pub Ready-connected :
        (missing : Text) (s : Boot S P) (r : Result Mem)
        → IsKept s
        → Readies (connected mode missing s r)
    Ready-connected missing s (throw x) k = k
    Ready-connected missing s (ok m) k =
        if_all Readies (P.has_map m) (λ e. IsReady-set m true s k (inl refl))
          (λ e. IsKept-set (some m) (map_ptr mode s.kv) s k)

    pub Ready-with_map :
        (name : Text) (m : Mem) (s : Boot S P) (r : Result Mem)
        → IsKept s
        → Readies (with_map mode name m s r)
    Ready-with_map name m s (throw x) k = IsKept-set (some m) (map_ptr mode s.kv) s k
    Ready-with_map name m s (ok m') k =
        IsReady-set (flushed S mode m') true
          (with_world s (P.commit mode name (flushed S mode m') s.world)) k (inl refl)

    pub Ready-with_segment :
        (name : Text) (s : Boot S P) (r : Result (Mem × P.World))
        → IsKept s
        → Readies (with_segment mode name s r)
    Ready-with_segment name s (throw x) k = k
    Ready-with_segment name s (ok (m, w)) k =
        Ready-with_map name m (with_world s w) (P.construct_map m) k

    pub Ready-create_new :
        (name : Text) (size : ℕ) (s : Boot S P) → IsKept s → Readies (create_new mode name size s)
    unfolding create_new
    Ready-create_new name size s = Ready-with_segment name s (P.create_only mode name size s.world)
