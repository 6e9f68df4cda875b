-- ===== src/Store/Boot.antt =====
-- The steps from which the constructor of src/KVStore.cpp is built: a step works on the store as far
-- as it is built and on the platform, and an exception that it throws is part of its result.
use hpe_distributed_key_valu.Prelude.{
  ℕ, Bool, true, ◌++◌, Option, none, some, is_empty, if◌then◌else◌, Text, codes,
}
use hpe_distributed_key_valu.Store.Boost.{Segment}
use hpe_distributed_key_valu.Store.Defs.{StorageMode, memory, persistent, KvStore}
use hpe_distributed_key_valu.Store.Platform.{
  Trouble, interprocess, foreign, Result, ok, throw, Platform,
}

-- The three names of an instance.
pub record Names : Type 0 where
  pub shm_name : Text
  pub persistent_file_path : Text
  pub mutex_name : Text

unfoldable pub names_of : Text → Names
names_of node_tag =
    if is_empty node_tag
    then record {
      shm_name = codes "Project";
      persistent_file_path = codes "./kvstore_persistent.dat";
      mutex_name = codes "SharedMapMutex";
    }
    else record {
      shm_name = codes "Project_" ++ node_tag;
      persistent_file_path = codes "./kvstore_persistent_" ++ (node_tag ++ codes ".dat");
      mutex_name = codes "SharedMapMutex_" ++ node_tag;
    }

abbrev pub storage_of : {M : Type 0} → StorageMode → KvStore M → Option M
storage_of memory kv = kv.memory_storage
storage_of persistent kv = kv.file_storage

abbrev pub map_ptr : {M : Type 0} → StorageMode → KvStore M → Bool
map_ptr memory kv = kv.memory_map_ptr
map_ptr persistent kv = kv.persistent_map_ptr

abbrev pub name_of : StorageMode → Names → Text
name_of memory names = names.shm_name
name_of persistent names = names.persistent_file_path

module _ (S : Segment) (P : Platform S) where
  open S use {Mem}
  open P use {World}

  pub record Boot : Type 0 where
    pub kv : KvStore Mem
    pub world : World

  -- A step, with the exception that it throws, if it does.
  abbrev pub Act : Type 0
  Act = Boot → Option Trouble × Boot

module _ (S : Segment) where
  open S use {Mem}

  -- Only a mapped file is flushed when its map has been made.
  abbrev pub flushed : StorageMode → Mem → Mem
  flushed memory m = m
  flushed persistent m = S.flush m

module _ {S : Segment} {P : Platform S} where
  open S use {Mem}
  open P use {World}

  abbrev pub and_then : Act S P → Option Trouble × Boot S P → Option Trouble × Boot S P
  and_then next (none, s) = next s
  and_then next (some x, s) = (some x, s)

  infixl 5 ◌>>◌
  abbrev pub ◌>>◌ : Act S P → Act S P → Act S P
  (first >> next) s = and_then next (first s)

  -- `try { … } catch(const interprocess_exception &)`
  abbrev pub handled : (Text → Act S P) → Option Trouble × Boot S P → Option Trouble × Boot S P
  handled handler (none, s) = (none, s)
  handled handler (some (interprocess t), s) = handler t s
  handled handler (some (foreign t), s) = (some (foreign t), s)

  abbrev pub with_world : Boot S P → World → Boot S P
  with_world s w = record s { world = w }

  -- The smart pointer and the map pointer of a mode.
  abbrev pub set_storage : StorageMode → Option Mem → Bool → Boot S P → Boot S P
  set_storage memory m found s = record s {
    kv = record s.kv { memory_storage = m; memory_map_ptr = found };
  }
  set_storage persistent m found s = record s {
    kv = record s.kv { file_storage = m; persistent_map_ptr = found };
  }

  -- `create_only`, then `construct`. A segment whose map could not be made stays in its pointer.
  abbrev pub with_map : StorageMode → Text → Mem → Boot S P → Result Mem → Option Trouble × Boot S P
  with_map mode name m s (throw x) = (some x, set_storage mode (some m) (map_ptr mode s.kv) s)
  with_map mode name m s (ok m') = (
    none,
    set_storage mode (some (flushed S mode m')) true
        (with_world s (P.commit mode name (flushed S mode m') s.world)),
  )

  abbrev pub with_segment :
      StorageMode → Text → Boot S P → Result (Mem × World) → Option Trouble × Boot S P
  with_segment mode name s (throw x) = (some x, s)
  with_segment mode name s (ok (m, w)) = with_map mode name m (with_world s w) (P.construct_map m)

  unfoldable pub create_new : StorageMode → Text → ℕ → Act S P
  create_new mode name size s = with_segment mode name s (P.create_only mode name size s.world)

  abbrev pub removed : Boot S P → Result World → Option Trouble × Boot S P
  removed s (throw x) = (some x, s)
  removed s (ok w) = (none, with_world s w)
