-- ===== src/Store/Lifecycle.antt =====
-- The constructor, `get_instance` and the destructor of src/KVStore.cpp.
use hpe_distributed_key_valu.Prelude.{
  ℕ, ◌*◌, Bool, true, false, Option, none, some, ltb, if◌then◌else◌, Text,
}
use hpe_distributed_key_valu.Store.Boost.{Segment}
use hpe_distributed_key_valu.Store.Defs.{
  StorageMode, memory, persistent, ConnectionMode, server, client, KvStore,
}
use hpe_distributed_key_valu.Store.Platform.{Trouble, interprocess, Result, ok, throw, Platform}
use hpe_distributed_key_valu.Store.Boot.{
  Names, names_of, Boot, Act, ◌>>◌, handled, with_world, set_storage, name_of, flushed, removed,
}
use hpe_distributed_key_valu.Store.Storage.{
  create_memory_storage, create_persistent_storage, connect_to_memory_storage,
  connect_to_persistent_storage, cleanup_storage,
}

module _ {S : Segment} {P : Platform S} where
  open S use {Mem}
  open P use {World}

  abbrev pub create_storage : StorageMode → Names → ℕ → Act S P
  create_storage memory = create_memory_storage
  create_storage persistent = create_persistent_storage

  abbrev pub connect_to_storage : StorageMode → Names → Act S P
  connect_to_storage memory = connect_to_memory_storage
  connect_to_storage persistent = connect_to_persistent_storage

  abbrev pub make_mutex : Names → Act S P
  make_mutex names s = removed s (P.open_or_create_mutex names.mutex_name s.world)

  abbrev pub remove_mutex : Names → Act S P
  remove_mutex names s = (none, with_world s (P.remove_mutex names.mutex_name s.world))

  -- The outer `try` of the constructor.
  unfoldable pub start_up : Names → ℕ → StorageMode → ConnectionMode → Act S P
  start_up names size mode server =
      (create_storage mode names size >> remove_mutex names) >> make_mutex names
  start_up names size mode client = connect_to_storage mode names >> make_mutex names

  abbrev pub reopened : StorageMode → Boot S P → Result Mem → Option Trouble × Boot S P
  reopened mode s (throw x) = (some x, s)
  reopened mode s (ok m) = (none, set_storage mode (some m) (P.has_map m) s)

  abbrev pub rebuild_storage : Names → ℕ → StorageMode → Act S P
  rebuild_storage names size mode =
      ((cleanup_storage names >> remove_mutex names) >> create_storage mode names size)
      >> make_mutex names

  -- The outer `catch` of the constructor.
  unfoldable pub recover : Names → ℕ → StorageMode → ConnectionMode → Text → Act S P
  recover names size mode client t s = (some (interprocess t), s)
  recover names size mode server t s =
      handled (λ _. rebuild_storage names size mode)
        (reopened mode s (P.open_only mode (name_of mode names) s.world))

module _ (S : Segment) (P : Platform S) where
  open S use {Mem}
  open P use {World}

  -- The members before the body of the constructor.
  abbrev pub blank : ℕ → StorageMode → ConnectionMode → KvStore Mem
  blank size mode conn = record {
    total_memory_size = size;
    storage_mode = mode;
    conn_mode = conn;
    memory_storage = none;
    file_storage = none;
    memory_map_ptr = false;
    persistent_map_ptr = false;
  }

  -- With an exception in the result there is no object.
  unfoldable pub construct :
      ℕ → StorageMode → ConnectionMode → Text → World → Option Trouble × Boot S P
  construct size mode conn node_tag w =
      let names = names_of node_tag in
      handled (recover names size mode conn)
        (start_up names size mode conn (record { kv = blank size mode conn; world = w }))

  abbrev pub default_memory_size : ℕ
  default_memory_size = 500 * (1024 * 1024)

  -- The object of `get_instance` is made at the first call, and later calls return it.
  unfoldable pub get_instance :
      Option (KvStore Mem)
      → ℕ
      → StorageMode
      → ConnectionMode
      → Text
      → World
      → Option Trouble × Boot S P
  get_instance (some kv) size mode conn node_tag w = (none, record { kv = kv; world = w })
  get_instance none size mode conn node_tag w =
      construct (if ltb 0 size then size else default_memory_size) mode conn node_tag w

  -- `destroy` where the map pointer is set; a mapped file is flushed before.
  abbrev pub without_map : StorageMode → Bool → Mem → Mem
  without_map mode false m = m
  without_map mode true m = P.destroy_map (flushed S mode m)

  abbrev pub end_memory : Names → Boot S P → Option Mem → World
  end_memory names s none = s.world
  end_memory names s (some m) =
      (cleanup_storage names (
        with_world s (
          P.commit memory names.shm_name (without_map memory s.kv.memory_map_ptr m)
            s.world))).1.world

  abbrev pub end_file : Names → Boot S P → Option Mem → World
  end_file names s none = s.world
  end_file names s (some m) =
      P.commit persistent names.persistent_file_path
        (without_map persistent s.kv.persistent_map_ptr m) s.world

  -- What the process wrote to a segment that it lets go without more.
  abbrev pub let_go : StorageMode → Names → World → Option Mem → World
  let_go mode names w none = w
  let_go mode names w (some m) = P.commit mode (name_of mode names) m w

  unfoldable pub destruct : Names → KvStore Mem → World → World
  destruct names kv w = elim kv.conn_mode [
    | client ↦ let_go persistent names (let_go memory names w kv.memory_storage) kv.file_storage
    | server ↦ elim kv.storage_mode [
      | memory ↦
          P.remove_mutex names.mutex_name
            (end_memory names (record { kv = kv; world = w }) kv.memory_storage)
      | persistent ↦
          P.remove_mutex names.mutex_name
            (end_file names (record { kv = kv; world = w }) kv.file_storage)
    ]
  ]
