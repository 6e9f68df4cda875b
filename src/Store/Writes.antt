-- ===== src/Store/Writes.antt =====
-- `Insert`, `Update` and `Delete` of src/KVStore.cpp: what each does to the map, on every branch.
use hpe_distributed_key_valu.Prelude.{
  ◌+◌, ◌-◌, ◌%◌, length, ◌≢◌, ◌≡◌, refl, Bool, not, ◌&&◌, Option, none, some, ltb, if◌then◌else◌,
  Text, c_str, ℤ, Bool-cases, inl, inr,
}
use hpe_distributed_key_valu.Store.Boost.{done, Segment, IsMap}
use hpe_distributed_key_valu.Store.Defs.{
  KvStore, inserted, updated, deleted, key_exists, key_not_found, not_enough_memory, insert, update,
  delete, has_enough_memory, size_mod, insert_body, update_body, delete_body,
}
use hpe_distributed_key_valu.Store.Effects.{
  IsOpen, Outcome, is_inserted, is_updated, is_deleted, Attempt-done, idle, operation-Outcome,
  stored-Outcome,
}

module _ (S : Segment) (laws : IsMap S) where
  open S use {Mem}

  insert_body-Outcome :
      (key : ℤ) (value : Text) (kv : KvStore Mem) (m : Mem)
      → IsOpen kv m
      → (o : Option Text) → S.find key m ≡ o
      → Outcome S m key
          (some (c_str value))
          is_inserted
          (S.find key m ≡ none)
          (insert_body S key value kv m o)
  insert_body-Outcome key value kv m o (some old) e =
      idle S laws key _ is_inserted _ kv m key_exists o refl
  insert_body-Outcome key value kv m o none e =
      stored-Outcome S laws key _ is_inserted _ kv m _ inserted o refl (λ x. refl) e
        (λ m' d j. laws.find-insert key j (c_str value) m m' e d)
        (λ m' d. laws.lock-insert key (c_str value) m m' d)
        (λ m' x d j. laws.find-insert_raised key j (c_str value) m m' x d)

  -- `Insert` on an open store, on every branch: it stores the text up to the first NUL under a key
  -- that was free and reports that it did, or leaves the map as it was; the store stays open.
  pub insert_lem :
      (key : ℤ) (value : Text) (kv : KvStore Mem) (m : Mem)
      → IsOpen kv m
      → Outcome S m key
          (some (c_str value))
          is_inserted
          (S.find key m ≡ none)
          (insert S key value kv)
  unfolding insert
  insert_lem key value kv m o =
      operation-Outcome S laws key _ is_inserted _ kv m _ o (λ x. refl)
        (elim (Bool-cases (has_enough_memory S kv ((length value + 4 + 64) % size_mod))) [
          | inl room ↦ rw room (insert_body-Outcome key value kv m o (S.find key m) refl)
          | inr full ↦ rw full (idle S laws key _ is_inserted _ kv m not_enough_memory o refl)
        ])

  update_body-Outcome :
      (key : ℤ) (value : Text) (kv : KvStore Mem) (m : Mem)
      → IsOpen kv m
      → (o : Option Text) → S.find key m ≡ o
      → Outcome S m key
          (some (c_str value))
          is_updated
          (S.find key m ≢ none)
          (update_body S key value kv m o)
  update_body-Outcome key value kv m o none e =
      idle S laws key _ is_updated _ kv m key_not_found o refl
  update_body-Outcome key value kv m o (some old) e = elim (Bool-cases (short old)) [
    | inl full ↦ rw full (idle S laws key _ is_updated _ kv m not_enough_memory o refl)
    | inr room ↦ rw room (
        stored-Outcome S laws key _ is_updated _ kv m _ updated o refl (λ x. refl) (λ h. cc)
          (λ m' d j. laws.find-assign key j (c_str value) old m m' e d)
          (λ m' d. laws.lock-assign key (c_str value) m m' d)
          (λ m' x d j. laws.find-assign_raised key j (c_str value) m m' x d))
  ]
    where
      short : Text → Bool
      short old =
          let size_diff =
            if ltb (length (c_str old)) (length value)
            then length value - length (c_str old)
            else 0 in
          ltb 0 size_diff && not (has_enough_memory S kv size_diff)

  -- `Update` on an open store, on every branch: it replaces the value of a key that is there and
  -- reports that it did, or leaves the map as it was; the store stays open.
  pub update_lem :
      (key : ℤ) (value : Text) (kv : KvStore Mem) (m : Mem)
      → IsOpen kv m
      → Outcome S m key
          (some (c_str value))
          is_updated
          (S.find key m ≢ none)
          (update S key value kv)
  unfolding update
  update_lem key value kv m o =
      operation-Outcome S laws key _ is_updated _ kv m _ o (λ x. refl)
        (update_body-Outcome key value kv m o (S.find key m) refl)

  delete_body-Outcome :
      (key : ℤ) (kv : KvStore Mem) (m : Mem)
      → IsOpen kv m
      → (o : Option Text) → S.find key m ≡ o
      → Outcome S m key none is_deleted (S.find key m ≢ none) (delete_body S key kv m o)
  delete_body-Outcome key kv m o none e = idle S laws key _ is_deleted _ kv m key_not_found o refl
  delete_body-Outcome key kv m o (some old) e =
      stored-Outcome S laws key _ is_deleted _ kv m (done (S.erase key m)) deleted o refl
        (λ x. refl) (λ h. cc) (λ m' d j. rw (← Attempt-done d) (laws.find-erase key j m))
        (λ m' d. rw (← Attempt-done d) (laws.lock-erase key m)) (λ m' x d. cc)

  -- `Delete` on an open store, on every branch: it removes a key that is there and reports that it
  -- did, or leaves the map as it was; the store stays open.
  pub delete_lem :
      (key : ℤ) (kv : KvStore Mem) (m : Mem)
      → IsOpen kv m
      → Outcome S m key none is_deleted (S.find key m ≢ none) (delete S key kv)
  unfolding delete
  delete_lem key kv m o =
      operation-Outcome S laws key _ is_deleted _ kv m _ o (λ x. refl)
        (delete_body-Outcome key kv m o (S.find key m) refl)
