-- ===== src/Gossip/Rounds.antt =====
-- `detectFailures`, `gossipLoop`, `start`, `stop` and the constructor of src/GossipMembership.cpp.
use hpe_distributed_key_valu.Prelude.{
  ℕ, suc, ◌+◌, ◌-◌, ◌%◌, ◌^◌, Bool, true, false, not, ◌||◌, List, [], ◌∷◌, none, some, ltb, ◌==◌,
  if◌then◌else◌, Text, text_eq, ℤ, pos, negsuc, ◌==ℤ◌,
}
use hpe_distributed_key_valu.Gossip.State.{
  NodeStatus, severity, MemberRecord, MemberEntry, MemberTable, find, put, records,
  GossipMembership, alive, suspect, dead,
}
use hpe_distributed_key_valu.Gossip.Merge.{entry, settle, Exchange, do_gossip_round}

abbrev pub u64_mod : ℕ
u64_mod = 2 ^ 64

-- `static_cast<uint64_t>` of an `int`.
abbrev to_u64 : ℤ → ℕ
to_u64 (pos n) = n
to_u64 (negsuc n) = u64_mod - 1 - n

-- The two tests of `detectFailures` on one entry, the second after the first has been acted on.
unfoldable pub suspect_status : ℤ → ℕ → NodeStatus → NodeStatus
suspect_status threshold age alive = if ltb (to_u64 threshold) age then suspect else alive
suspect_status threshold age s = s

unfoldable pub dead_status : ℤ → ℕ → NodeStatus → NodeStatus
dead_status threshold age suspect = if ltb (to_u64 threshold) age then dead else suspect
dead_status threshold age s = s

unfoldable pub age_ms : ℕ → ℕ → ℕ
age_ms now last_updated_ms = (now + u64_mod - last_updated_ms) % u64_mod

unfoldable pub aged_status : ℤ → ℤ → ℕ → MemberEntry → NodeStatus
aged_status suspect_ms dead_ms now e =
    let age = age_ms now e.last_updated_ms in
    dead_status dead_ms age (suspect_status suspect_ms age e.info.status)

-- The loop of `detectFailures`: the new table, and whether a status changed.
unfoldable pub detect : ℤ → ℤ → ℤ → ℕ → MemberTable → MemberTable × Bool
detect self suspect_ms dead_ms now [] = ([], false)
detect self suspect_ms dead_ms now ((id, e) ∷ table) =
    let (rest, c) = detect self suspect_ms dead_ms now table in
    if id ==ℤ self
    then ((id, e) ∷ rest, c)
    else let s = aged_status suspect_ms dead_ms now e in
      (
        (id, record e { info = record e.info { status = s } }) ∷ rest,
        not (severity s == severity e.info.status) || c,
      )

unfoldable pub detect_failures : ℕ → GossipMembership → GossipMembership
detect_failures now g =
    settle g (detect g.self_node_id g.suspect_threshold_ms g.dead_threshold_ms now g.member_table)

abbrev pub beat : ℕ → MemberEntry → MemberEntry
beat now e = record {
  info = record e.info { heartbeat_counter = (e.info.heartbeat_counter + 1) % u64_mod };
  last_updated_ms = now;
}

-- `change` at the entry of the node itself, if it is there.
abbrev pub at_self : (MemberEntry → MemberEntry) → GossipMembership → GossipMembership
at_self change g = elim (find g.self_node_id g.member_table) [
  | none ↦ g
  | some e ↦ record g { member_table = put g.self_node_id (change e) g.member_table }
]

-- One round of `gossipLoop` after its sleep, for a node that still runs. `clock 0` is the time of
-- the heartbeat, `clock 1` that of `detectFailures`, and the rest those of the exchange.
unfoldable pub gossip_tick : Exchange → (ℕ → ℕ) → (ℕ → ℕ) → GossipMembership → GossipMembership
gossip_tick exchange random_int clock g =
    if not g.running
    then g
    else do_gossip_round exchange random_int (λ i. clock (suc (suc i)))
        (detect_failures (clock 1) (at_self (beat (clock 0)) g))

abbrev pub depart : MemberEntry → MemberEntry
depart e = record e {
  info = record e.info {
    status = dead;
    heartbeat_counter = (e.info.heartbeat_counter + 1) % u64_mod;
  };
}

unfoldable pub stop : Exchange → (ℕ → ℕ) → (ℕ → ℕ) → GossipMembership → GossipMembership
stop exchange random_int clock g =
    do_gossip_round exchange random_int clock (at_self depart (record g { running = false }))

-- `member_table_[id]` creates a value-initialised entry for an id that is missing.
abbrev fresh_entry : MemberEntry
fresh_entry = record {
  info = record {
    node_id = pos 0;
    endpoint = [];
    status = alive;
    heartbeat_counter = 0;
    generation = 0;
  };
  last_updated_ms = 0;
}

abbrev pub touch : ℤ → MemberTable → MemberTable
touch id table = elim (find id table) [ none ↦ put id fresh_entry table | some _ ↦ table ]

-- The loop of `start` over the response of a seed.
unfoldable pub seed_merge : ℤ → (ℕ → ℕ) → List MemberRecord → MemberTable → MemberTable
seed_merge self clock [] table = table
seed_merge self clock (r ∷ response) table =
    seed_merge self (λ i. clock (suc i)) response
      (if r.node_id ==ℤ self
        then touch r.node_id table
        else put r.node_id (entry r (clock 0)) table)

-- The loop of `start` over the seeds; seed `i` reads the clock `clock i`.
unfoldable pub contact_seeds :
    Exchange → (ℕ → ℕ → ℕ) → List Text → GossipMembership → GossipMembership
contact_seeds exchange clock [] g = g
contact_seeds exchange clock (seed ∷ seeds) g =
    contact_seeds exchange (λ i. clock (suc i)) seeds
      (if text_eq seed g.self_endpoint then g else elim (exchange seed (records g.member_table)) [
        | none ↦ g
        | some response ↦ record g {
          member_table = seed_merge g.self_node_id (clock 0) response g.member_table;
        }
      ])

unfoldable pub start : Exchange → (ℕ → ℕ → ℕ) → GossipMembership → GossipMembership
start exchange clock g = contact_seeds exchange clock g.seed_nodes (record g { running = true })

-- The constructor: `loaded` is the number in the generation file, 0 where there is none. The number
-- that it saves is the field `generation`.
unfoldable pub construct : ℤ → Text → List Text → ℤ → ℤ → ℕ → ℕ → GossipMembership
construct self endpoint seeds suspect_ms dead_ms loaded now =
    let gen = (loaded + 1) % 2 ^ 32 in
    record {
      self_node_id = self;
      self_endpoint = endpoint;
      seed_nodes = seeds;
      suspect_threshold_ms = suspect_ms;
      dead_threshold_ms = dead_ms;
      member_table =
          (
            self,
            entry
                (record {
                  node_id = self;
                  endpoint = endpoint;
                  status = alive;
                  heartbeat_counter = 0;
                  generation = gen;
                })
                now,
          )
          ∷ [];
      running = false;
      has_callback = false;
      last_alive_set = [];
      generation = gen;
      delivered = [];
    }

-- `callback` tells whether the function that is set is not empty.
unfoldable pub set_change_callback : Bool → GossipMembership → GossipMembership
set_change_callback callback g = record g { has_callback = callback }
