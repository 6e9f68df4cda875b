-- ===== src/Store/Success.antt =====
-- When `Insert`, `Update` and `Delete` of src/KVStore.cpp report that they have done their work.
use hpe_distributed_key_valu.Prelude.{
  ℕ, ◌+◌, ◌-◌, ◌%◌, ◌≡◌, refl, ap, ◌∙◌, Bool, true, false, not, ◌&&◌, none, some, arith, ltb,
  if◌then◌else◌, length, Text, c_str, ℤ, Bool-cases, inl, inr,
}
use hpe_distributed_key_valu.Store.Boost.{done, Segment, IsMap}
use hpe_distributed_key_valu.Store.Defs.{
  KvStore, Report, inserted, updated, deleted, failed, size_mod, has_enough_memory, stored,
  operation, insert_body, update_body, delete_body, insert, update, delete, locked,
}
use hpe_distributed_key_valu.Store.Effects.{IsOpen, guarded-open}

-- The memory check of `Update` looks at the growth only.
growth :
    (old new : ℕ) (room : ℕ → Bool)
    → (ltb old new && not (room (new - old))) ≡ false
    → (let diff = if ltb old new then new - old else 0 in ltb 0 diff && not (room diff)) ≡ false
growth old new room h = elim (Bool-cases (ltb old new)) [
  | inl up ↦ rw up (ground (arith, h))
  | inr down ↦ rw down refl
]

module _ (S : Segment) (laws : IsMap S) where
  open S use {Mem}

  module _ (key : ℤ) (value : Text) (kv : KvStore Mem) (m m' : Mem) (o : IsOpen kv m)
      (free : S.lock m ≡ none) where
    runs : (body : Mem → KvStore Mem × Report) → operation S kv body ≡ body m
    runs body =
        guarded-open S laws kv m (λ r. (kv, r)) (λ x. (kv, failed x)) body o
        ∙ ap (locked S (λ x. (kv, failed x)) body m) free

    -- `Insert` on an open store whose mutex can be taken reports success, if the memory check
    -- passes, the key is not there, and the call on the map goes through.
    pub insert_succeeds :
        has_enough_memory S kv ((length value + 4 + 64) % size_mod) ≡ true
        → S.find key m ≡ none
        → S.insert key (c_str value) m ≡ done m'
        → (insert S key value kv).1 ≡ inserted
    unfolding insert
    insert_succeeds room absent goes =
        ap (λ r. r.1) (runs _)
        ∙ rw (room) (
            ap (λ f. (insert_body S key value kv m f).1) absent
            ∙ ap (λ a. (stored S kv a inserted).1) goes)

    -- `Update` on an open store whose mutex can be taken reports success, if the key is there, the
    -- new text is no longer than the old one or its growth passes the memory check, and the call on
    -- the map goes through.
    pub update_succeeds :
        (old : Text)
        → S.find key m ≡ some old
        → (ltb (length (c_str old)) (length value)
            && not (has_enough_memory S kv (length value - length (c_str old))))
          ≡ false
        → S.assign key (c_str value) m ≡ done m'
        → (update S key value kv).1 ≡ updated
    unfolding update
    update_succeeds old there room goes =
        ap (λ r. r.1) (runs _)
        ∙ ap (λ f. (update_body S key value kv m f).1) there
        ∙ rw (growth (length (c_str old)) (length value) (has_enough_memory S kv) room)
            (ap (λ a. (stored S kv a updated).1) goes)

    -- `Delete` on an open store whose mutex can be taken reports success if the key is there.
    pub delete_succeeds : (old : Text) → S.find key m ≡ some old → (delete S key kv).1 ≡ deleted
    unfolding delete
    delete_succeeds old there =
        ap (λ r. r.1) (runs _) ∙ ap (λ f. (delete_body S key kv m f).1) there
