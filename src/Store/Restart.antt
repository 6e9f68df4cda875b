-- ===== src/Store/Restart.antt =====
-- A node that is started again: what the constructor of src/KVStore.cpp finds of the data that an
-- earlier process left, and what it creates.
use hpe_distributed_key_valu.Prelude.{◌≡◌, ◌⊎◌, true, Text}
use hpe_distributed_key_valu.Store.Boost.{Segment}
use hpe_distributed_key_valu.Store.Defs.{persistent}
use hpe_distributed_key_valu.Store.Platform.{interprocess, ok, throw, Platform}
use hpe_distributed_key_valu.Store.Boot.{names_of}

module _ (S : Segment) (P : Platform S) where
  open S use {Mem}

  abbrev pub file_of : Text → Text
  file_of node_tag = (names_of node_tag).persistent_file_path

  abbrev mutex_of : Text → Text
  mutex_of node_tag = (names_of node_tag).mutex_name

  -- The file of the node is there, with the map.
  pub record IsKeptFile (node_tag : Text) (m : Mem) (w : P.World) : Type 0 where
    pub there : P.exists (file_of node_tag) w ≡ true
    pub opens : P.open_only persistent (file_of node_tag) w ≡ ok m
    pub mapped : P.has_map m ≡ true

  -- The mutex is made, or its making fails with an exception of Boost, which leads to the recovery.
  abbrev pub IsTried : Text → P.World → Type 0
  IsTried node_tag w =
      ((w' : P.World) × (P.open_or_create_mutex (mutex_of node_tag)
            (P.remove_mutex (mutex_of node_tag) w)
          ≡ ok w'))
      ⊎ ((t : Text) × (P.open_or_create_mutex (mutex_of node_tag)
              (P.remove_mutex (mutex_of node_tag) w)
            ≡ throw (interprocess t)))
