-- ===== src/ServerMain/Node.antt =====
-- The start and the clean end of a server in `main` of src/main_server.cpp, on its membership and its
-- store. The engine and the threads are left out.
use hpe_distributed_key_valu.Prelude.{ℕ, ◌≡◌, true, List, [], Option, none, some, Text, ℤ}
use hpe_distributed_key_valu.Decimal.{to_string}
use hpe_distributed_key_valu.Config.{Json, GossipConfig, read_gossip_config}
use hpe_distributed_key_valu.Ring.{KeyRangeAssignment, get_key_range_assignments}
use hpe_distributed_key_valu.Gossip
use hpe_distributed_key_valu.Gossip.{GossipMembership, Exchange, set_change_callback, start}
use hpe_distributed_key_valu.Gossip.Alive.{IsDelivered}
use hpe_distributed_key_valu.Gossip.Generations.{Files, create}
use hpe_distributed_key_valu.Store.{Segment, KvStore, server, sync}
use hpe_distributed_key_valu.Store.Platform.{Trouble, Platform}
use hpe_distributed_key_valu.Store.Boot.{Boot}
use hpe_distributed_key_valu.Store.Lifecycle.{get_instance}
use hpe_distributed_key_valu.Store.Ready.{IsReady}
use hpe_distributed_key_valu.ServerMain.{Settings, address_of, identity, on_change}

-- What the callback prints of the ring that it has made.
unfoldable pub printed_assignments : List (ℤ × Text) → List KeyRangeAssignment
printed_assignments live = get_key_range_assignments (on_change live)

-- The membership before `start`, with the working directory; `now` is the clock.
unfoldable pub new_membership :
    ℤ → GossipConfig → Settings → Text → Files → ℕ → GossipMembership × Files
new_membership node_id gossip_cfg settings local_ip files now =
    let made =
      create node_id (address_of settings local_ip) gossip_cfg.seed_nodes
        gossip_cfg.suspect_threshold_ms gossip_cfg.dead_threshold_ms files now in
    (set_change_callback true made.0, made.1)

module _ (S : Segment) (P : Platform S) where
  -- The store, tagged with the port.
  unfoldable pub new_store : Settings → P.World → Option Trouble × Boot S P
  new_store settings w =
      get_instance S P none settings.mem_size settings.storage_mode server (to_string settings.port)
        w

  -- What the watcher does when the signal has come: `stop`, then `Sync`.
  unfoldable pub shut_down :
      Exchange
      → (ℕ → ℕ)
      → (ℕ → ℕ)
      → GossipMembership × KvStore S.Mem
      → GossipMembership × KvStore S.Mem
  shut_down exchange random_int clock (membership, kv) =
      (Gossip.stop exchange random_int clock membership, sync S kv)

  -- A server that runs, or the exception that ends it: of the configuration, or of the store.
  pub data Launch : Type 0 where
    bad_config : Launch
    no_store : Trouble → Launch
    running : GossipMembership → Files → Boot S P → Launch

  abbrev with_membership :
      Exchange → (ℕ → ℕ → ℕ) → Option Trouble × Boot S P → GossipMembership × Files → Launch
  with_membership exchange clock (some trouble, s) made = no_store trouble
  with_membership exchange clock (none, s) (g, files) = running (start exchange clock g) files s

  module _ (J : Json) where
    abbrev with_config :
        Exchange
        → (ℕ → ℕ → ℕ)
        → Settings
        → Text
        → Files
        → ℕ
        → P.World
        → Option ℤ
        → Option GossipConfig
        → Launch
    with_config exchange clock settings local_ip files now disk (some node_id) (some gossip_cfg) =
        with_membership exchange clock (new_store settings disk)
          (new_membership node_id gossip_cfg settings local_ip files now)
    with_config exchange clock settings local_ip files now disk node_id gossip_cfg = bad_config

    -- `main`, from the configuration to `membership.start()`.
    unfoldable pub launch :
        Exchange → (ℕ → ℕ → ℕ) → J.Value → Settings → Text → Files → ℕ → P.World → Launch
    launch exchange clock config settings local_ip files now disk =
        with_config exchange clock settings local_ip files now disk
          (identity J config local_ip settings.port) (read_gossip_config J config)

  -- What holds of a server that runs.
  abbrev Runs : Settings → GossipMembership → Boot S P → Type 0
  Runs settings g s =
      IsReady S P settings.storage_mode s.kv
      × IsDelivered g
      × (g.has_callback ≡ true)
      × (g.delivered ≡ [])
