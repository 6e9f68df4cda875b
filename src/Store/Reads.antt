-- ===== src/Store/Reads.antt =====
-- `Find` of src/KVStore.cpp after `Insert`, `Update` and `Delete`.
use hpe_distributed_key_valu.Prelude.{
  ◌≡◌, refl, ap, ◌∙◌, Bool, true, Option, none, some, arith, [], ◌∷◌, ◌++◌, if◌then◌else◌, Text,
  codes, c_str, ℤ, ◌==ℤ◌,
}
use hpe_distributed_key_valu.Store.Boost.{Exception, Segment, IsMap}
use hpe_distributed_key_valu.Store.Defs.{
  KvStore, inserted, updated, deleted, found_text, locked, what, find_value, insert, update, delete,
}
use hpe_distributed_key_valu.Store.Effects.{
  IsOpen, Effect, is_inserted, is_updated, is_deleted, guarded-open,
}
use hpe_distributed_key_valu.Store.Writes.{insert_lem, update_lem, delete_lem}

c_str_idem : (v : Text) → c_str (c_str v) ≡ c_str v
c_str_idem [] = refl
c_str_idem (c ∷ v) = ground (arith, c_str_idem v)

module _ (S : Segment) (laws : IsMap S) where
  open S use {Mem}

  -- On an open store whose mutex can be taken, `Find` reads the map.
  pub find_value-open :
      (key : ℤ) (kv : KvStore Mem) (m : Mem)
      → IsOpen kv m
      → S.lock m ≡ none
      → find_value S key kv ≡ found_text (S.find key m)
  unfolding find_value
  find_value-open key kv m o free =
      let threw : Exception → Text = λ x. codes "Error: " ++ what x in
      let body : Mem → Text = λ n. found_text (S.find key n) in
      guarded-open S laws kv m (λ _. codes "Map not found") threw body o
      ∙ ap (locked S threw body m) free

  -- What a later `Find` sees of an operation that wrote.
  read_back :
      (m : Mem) (kv : KvStore Mem) (wrote : Bool) (key j : ℤ) (new : Option Text)
      → Effect S m kv wrote key new
      → wrote ≡ true
      → S.lock m ≡ none
      → find_value S j kv ≡ (if key ==ℤ j then found_text new else found_text (S.find j m))
  read_back m kv wrote key j new e w free =
      find_value-open j kv e.left e.is_open (e.mutex w ∙ free)
      ∙ ap found_text (e.content j)
      ∙ ground arith

  module _ (key : ℤ) (value : Text) (kv : KvStore Mem) (m : Mem) (o : IsOpen kv m)
      (free : S.lock m ≡ none) where
    after_write :
        (j : ℤ) {kv' : KvStore Mem} {wrote : Bool}
        → Effect S m kv' wrote key (some (c_str value))
        → wrote ≡ true
        → find_value S j kv' ≡ (if key ==ℤ j then c_str value else find_value S j kv)
    after_write j {kv'} {wrote} e w =
        read_back m kv' wrote key j (some (c_str value)) e w free
        ∙ ground (arith, find_value-open j kv m o free, c_str_idem value)

    -- On an open store whose mutex can be taken: after an `Insert` that reports success, `Find` of
    -- the key gives the text up to its first NUL byte, and `Find` of another key what it gave before.
    pub find_after_insert :
        (j : ℤ)
        → (insert S key value kv).1 ≡ inserted
        → find_value S j (insert S key value kv).0
          ≡ (if key ==ℤ j then c_str value else find_value S j kv)
    find_after_insert j w = after_write j (insert_lem S laws key value kv m o).0 (ap is_inserted w)

    -- On an open store whose mutex can be taken: after an `Update` that reports success, `Find` of
    -- the key gives the text up to its first NUL byte, and `Find` of another key what it gave before.
    pub find_after_update :
        (j : ℤ)
        → (update S key value kv).1 ≡ updated
        → find_value S j (update S key value kv).0
          ≡ (if key ==ℤ j then c_str value else find_value S j kv)
    find_after_update j w = after_write j (update_lem S laws key value kv m o).0 (ap is_updated w)

    -- On an open store whose mutex can be taken: after a `Delete` that reports success, `Find` of the
    -- key gives "key not found", and `Find` of another key what it gave before.
    pub find_after_delete :
        (j : ℤ)
        → (delete S key kv).1 ≡ deleted
        → find_value S j (delete S key kv).0
          ≡ (if key ==ℤ j then codes "key not found" else find_value S j kv)
    find_after_delete j w =
        read_back m _ _ key j none (delete_lem S laws key kv m o).0 (ap is_deleted w) free
        ∙ ground (arith, find_value-open j kv m o free)
