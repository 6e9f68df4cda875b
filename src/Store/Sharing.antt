-- ===== src/Store/Sharing.antt =====
-- About a client and a server of src/KVStore.cpp with the same node tag.
use hpe_distributed_key_valu.Prelude.{ℕ, ◌≡◌, refl, true, Option, none, some, Text}
use mathlib.Core.Path.{subst}
use hpe_distributed_key_valu.Prelude.{sym, ◌∙◌, ap}
use hpe_distributed_key_valu.Store.Boost.{Segment}
use hpe_distributed_key_valu.Store.Defs.{memory, server, client}
use hpe_distributed_key_valu.Store.Platform.{Trouble, Result, ok, throw, Platform, IsPlatform}
use hpe_distributed_key_valu.Store.Boot.{
  Names, names_of, Boot, with_world, with_map, with_segment, create_new, removed,
}
use hpe_distributed_key_valu.Store.Storage.{create_memory_storage, connect_to_memory_storage}
use hpe_distributed_key_valu.Store.Lifecycle.{make_mutex, remove_mutex, start_up, blank, construct}
use hpe_distributed_key_valu.Store.Ensures.{Ensures, Ensures-and_then}

module _ (S : Segment) (P : Platform S) (laws : IsPlatform S P) where
  open S use {Mem}

  -- The server's segment is under its name, with the map.
  pub record IsServed (names : Names) (s : Boot S P) : Type 0 where
    pub segment : Mem
    pub held : s.kv.memory_storage ≡ some segment
    pub opens : P.open_only memory names.shm_name s.world ≡ ok segment
    pub mapped : P.has_map segment ≡ true

  abbrev Serves : Names → Option Trouble × Boot S P → Type 0
  Serves names = Ensures (IsServed names) (λ _. Unit)

  module _ (names : Names) where
    Serves-with_map :
        (m : Mem) (s : Boot S P) (r : Result Mem)
        → P.construct_map m ≡ r
        → P.open_only memory names.shm_name s.world ≡ ok m
        → Serves names (with_map memory names.shm_name m s r)
    Serves-with_map m s (throw x) e o = tt
    Serves-with_map m s (ok m') e o = record {
      segment = m';
      held = refl;
      opens = laws.open-commit memory names.shm_name m m' s.world o;
      mapped = laws.has_map-construct_map m m' e;
    }

    Serves-with_segment :
        (size : ℕ) (s : Boot S P) (r : Result (Mem × P.World))
        → P.create_only memory names.shm_name size s.world ≡ r
        → Serves names (with_segment memory names.shm_name s r)
    Serves-with_segment size s (throw x) e = tt
    Serves-with_segment size s (ok (m, w)) e =
        Serves-with_map m (with_world s w) (P.construct_map m) refl
          (laws.open-create_only memory names.shm_name size m s.world w e)

    Serves-create : (size : ℕ) (s : Boot S P) → Serves names (create_memory_storage names size s)
    unfolding create_memory_storage create_new
    Serves-create size s =
        Serves-with_segment size (with_world s (P.remove_shared_memory names.shm_name s.world)) _
          refl

    Serves-remove_mutex :
        (s : Boot S P) → IsServed names s → IsServed names (remove_mutex names s).1
    Serves-remove_mutex s h = record {
      segment = h.segment;
      held = h.held;
      opens = laws.open-remove_mutex memory names.shm_name names.mutex_name s.world ∙ h.opens;
      mapped = h.mapped;
    }

    Serves-make_mutex : (s : Boot S P) → IsServed names s → Serves names (make_mutex names s)
    Serves-make_mutex s h = by_result (P.open_or_create_mutex names.mutex_name s.world) refl
      where
        by_result :
            (r : Result P.World)
            → P.open_or_create_mutex names.mutex_name s.world ≡ r
            → Serves names (removed s r)
        by_result (throw x) e = tt
        by_result (ok w) e = record {
          segment = h.segment;
          held = h.held;
          opens =
              laws.open-open_or_create_mutex memory names.shm_name names.mutex_name s.world w e
              ∙ h.opens;
          mapped = h.mapped;
        }

    start-IsServed :
        (size : ℕ) (s s' : Boot S P)
        → start_up names size memory server s ≡ (none, s')
        → IsServed names s'
    unfolding start_up
    start-IsServed size s s' e = subst (Serves names) e (
        Ensures-and_then (IsServed names) (IsServed names) (λ _. Unit) (make_mutex names) _
          (Ensures-and_then (IsServed names) (IsServed names) (λ _. Unit) (remove_mutex names) _
            (Serves-create size s) Serves-remove_mutex)
          Serves-make_mutex)

  -- A client with the segment, and the mutex opened.
  abbrev pub attached : ℕ → Option Mem → P.World → Boot S P
  attached size m w = record {
    kv = record (blank S P size memory client) { memory_storage = m; memory_map_ptr = true };
    world = w;
  }

  client_attaches :
      (size : ℕ) (node_tag : Text) (m : Mem) (w w' : P.World)
      → P.open_only memory (names_of node_tag).shm_name w ≡ ok m
      → P.has_map m ≡ true
      → P.open_or_create_mutex (names_of node_tag).mutex_name w ≡ ok w'
      → construct S P size memory client node_tag w ≡ (none, attached size (some m) w')
  unfolding construct connect_to_memory_storage start_up
  client_attaches size node_tag m w w' o h x = rw (o, h, x) refl

  -- A client of the memory mode that is started after a server with the same node tag has started
  -- without an exception holds the server's segment, with the map, if the mutex opens.
  pub client_shares :
      (size size' : ℕ) (node_tag : Text) (s s' : Boot S P) (w : P.World)
      → start_up (names_of node_tag) size memory server s ≡ (none, s')
      → P.open_or_create_mutex (names_of node_tag).mutex_name s'.world ≡ ok w
      → construct S P size' memory client node_tag s'.world
        ≡ (none, attached size' s'.kv.memory_storage w)
  client_shares size size' node_tag s s' w e o =
      client_attaches size' node_tag served.segment s'.world w served.opens served.mapped o
      ∙ ap (λ (m : Option Mem). (none, attached size' m w)) (sym served.held)
    where
      served : IsServed (names_of node_tag) s'
      served = start-IsServed (names_of node_tag) size s s' e
