-- ===== src/Store/Defs.antt =====
-- src/KVStore.cpp: the state of a `KvStore` and its operations on keys.
use hpe_distributed_key_valu.Prelude.{
  ℕ, ◌+◌, ◌-◌, ◌*◌, ◌%◌, ◌^◌, Bool, true, false, not, ◌&&◌, ◌||◌, ◌++◌, Option, none, some, ltb,
  leb, if◌then◌else◌, length, Text, codes, c_str, ℤ,
}
use hpe_distributed_key_valu.Store.Boost.{
  Exception, bad_alloc, other, Attempt, done, raised, Segment,
}

pub data StorageMode : Type 0 where
  memory persistent : StorageMode

pub data ConnectionMode : Type 0 where
  server client : ConnectionMode

abbrev pub size_mod : ℕ
size_mod = 2 ^ 64

-- The smart pointers are options, and the two map pointers say whether they are set: each points
-- into the segment of its mode.
pub record KvStore (M : Type 0) : Type 0 where
  pub total_memory_size : ℕ
  pub storage_mode : StorageMode
  pub conn_mode : ConnectionMode
  pub memory_storage : Option M
  pub file_storage : Option M
  pub memory_map_ptr : Bool
  pub persistent_map_ptr : Bool

-- What an operation tells; `fault` is a map pointer with no segment behind it.
pub data Report : Type 0 where
  map_not_found not_enough_memory key_exists key_not_found inserted updated deleted fault : Report
  failed : Exception → Report

abbrev pub what : Exception → Text
what (bad_alloc t) = t
what (other t) = t

abbrev pub is_memory : StorageMode → Bool
is_memory memory = true
is_memory persistent = false

abbrev pub found_text : Option Text → Text
found_text none = codes "key not found"
found_text (some v) = c_str v

module _ {M : Type 0} where
  -- The guard at the head of every operation.
  abbrev pub map_missing : KvStore M → Bool
  map_missing kv =
      is_memory kv.storage_mode && not kv.memory_map_ptr
      || not (is_memory kv.storage_mode) && not kv.persistent_map_ptr

  -- The segment of the mode, and a write to it.
  abbrev pub segment : KvStore M → Option M
  segment kv = if is_memory kv.storage_mode then kv.memory_storage else kv.file_storage

  abbrev pub set_segment : KvStore M → M → KvStore M
  set_segment kv m =
      if is_memory kv.storage_mode
      then record kv { memory_storage = some m }
      else record kv { file_storage = some m }

module _ (S : Segment) where
  open S use {Mem}

  -- `Sync`
  unfoldable pub sync : KvStore Mem → KvStore Mem
  sync kv = if is_memory kv.storage_mode then kv else elim kv.file_storage [
    | none ↦ kv
    | some m ↦ record kv { file_storage = some (S.flush m) }
  ]

  -- `GetFreeMemory`
  unfoldable pub get_free_memory : KvStore Mem → ℕ
  get_free_memory kv = elim (segment kv) [ none ↦ 0 | some m ↦ S.get_free_memory m ]

  -- `GetUsedMemory`
  unfoldable pub get_used_memory : KvStore Mem → ℕ
  get_used_memory kv = (kv.total_memory_size + size_mod - get_free_memory kv) % size_mod

  unfoldable pub has_enough_memory : KvStore Mem → ℕ → Bool
  has_enough_memory kv needed_bytes = leb (needed_bytes * 2 % size_mod) (get_free_memory kv)

  -- What both modes do with the segment that a write left; the persistent mode flushes it.
  abbrev pub stored : KvStore Mem → Attempt Mem → Report → KvStore Mem × Report
  stored kv (done m) report = (sync (set_segment kv m), report)
  stored kv (raised x m) report = (set_segment kv m, failed x)

  -- The steps from the guard to the lock; the body works on the segment.
  abbrev pub locked : {A : Type 0} → (Exception → A) → (Mem → A) → Mem → Option Exception → A
  locked throw body m (some x) = throw x
  locked throw body m none = body m

  abbrev pub past_guard :
      {A : Type 0} → (Report → A) → (Exception → A) → (Mem → A) → Bool → Option Mem → A
  past_guard refuse throw body true segment = refuse map_not_found
  past_guard refuse throw body false none = refuse fault
  past_guard refuse throw body false (some m) = locked throw body m (S.lock m)

  abbrev pub guarded : {A : Type 0} → KvStore Mem → (Report → A) → (Exception → A) → (Mem → A) → A
  guarded kv refuse throw body = past_guard refuse throw body (map_missing kv) (segment kv)

  -- The handlers of `Insert`, `Update` and `Delete` print the exception and leave the store.
  abbrev pub operation : KvStore Mem → (Mem → KvStore Mem × Report) → KvStore Mem × Report
  operation kv = guarded kv (λ r. (kv, r)) (λ x. (kv, failed x))

  -- The bodies of the operations, with the result of the lookup of the key.
  abbrev pub insert_body : ℤ → Text → KvStore Mem → Mem → Option Text → KvStore Mem × Report
  insert_body key value kv m (some old) = (kv, key_exists)
  insert_body key value kv m none = stored kv (S.insert key (c_str value) m) inserted

  unfoldable pub insert : ℤ → Text → KvStore Mem → KvStore Mem × Report
  insert key value kv = operation kv λ m.
      let entry_size = (length value + 4 + 64) % size_mod in
      if not (has_enough_memory kv entry_size)
      then (kv, not_enough_memory)
      else insert_body key value kv m (S.find key m)

  abbrev pub update_body : ℤ → Text → KvStore Mem → Mem → Option Text → KvStore Mem × Report
  update_body key new_value kv m none = (kv, key_not_found)
  update_body key new_value kv m (some old) =
      let old_size = length (c_str old) in
      let new_size = length new_value in
      let size_diff = if ltb old_size new_size then new_size - old_size else 0 in
      if ltb 0 size_diff && not (has_enough_memory kv size_diff)
      then (kv, not_enough_memory)
      else stored kv (S.assign key (c_str new_value) m) updated

  unfoldable pub update : ℤ → Text → KvStore Mem → KvStore Mem × Report
  update key new_value kv = operation kv λ m. update_body key new_value kv m (S.find key m)

  abbrev pub delete_body : ℤ → KvStore Mem → Mem → Option Text → KvStore Mem × Report
  delete_body key kv m none = (kv, key_not_found)
  delete_body key kv m (some old) = stored kv (done (S.erase key m)) deleted

  unfoldable pub delete : ℤ → KvStore Mem → KvStore Mem × Report
  delete key kv = operation kv λ m. delete_body key kv m (S.find key m)

  unfoldable pub find_value : ℤ → KvStore Mem → Text
  find_value key kv =
      guarded kv (λ _. codes "Map not found") (λ x. codes "Error: " ++ what x)
        λ m. found_text (S.find key m)

  unfoldable pub get_map_size : KvStore Mem → ℕ
  get_map_size kv = guarded kv (λ _. 0) (λ _. 0) S.size
