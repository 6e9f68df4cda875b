-- ===== src/Gossip/Runs.antt =====
-- Runs of several nodes of src/GossipMembership.cpp: heartbeats, failure detection, exchanges of views
-- with and without the answer, departures, restarts and contacts of seeds, in any order.
use native.Mathlib.Nat.{mod-eq_of_lt}
use hpe_distributed_key_valu.Prelude.{
  ℕ, ◌+◌, ◌%◌, ◌<◌, ◌≤◌, ◌≡◌, refl, sym, ap, ◌∙◌, false, List, some, arith, Text, ℤ,
}
use mathlib.Core.Path.{subst}
use hpe_distributed_key_valu.Gossip.State.{MemberRecord, MemberEntry, GossipMembership, records}
use hpe_distributed_key_valu.Gossip.Merge.{merge_view, take_response}
use hpe_distributed_key_valu.Gossip.Rounds.{
  u64_mod, beat, depart, at_self, detect_failures, seed_merge,
}
use hpe_distributed_key_valu.Gossip.Versions.{Version, known}
use hpe_distributed_key_valu.Gossip.Self.{own}
use hpe_distributed_key_valu.Gossip.Agreement.{response-records}
use hpe_distributed_key_valu.Gossip.Rumours.{
  Reached, Cluster, IsSound, replaced, replaced_at, replaced-IsSound,
}
use hpe_distributed_key_valu.Gossip.Generations.{Files, create}
use hpe_distributed_key_valu.Gossip.Restarts.{IsSaved, restart-Change}
use hpe_distributed_key_valu.Gossip.Seeds.{seed-Change}
use hpe_distributed_key_valu.Gossip.Changes.{
  bump-Change, detect-Change, merge-Change, response-Change,
}

-- The node's heartbeat has room for one more.
abbrev pub HasRoom : GossipMembership → Type 0
HasRoom g = (e : MemberEntry) → own g ≡ some e → e.info.heartbeat_counter + 1 < u64_mod

-- The node `b` merges the view of the node `a`.
abbrev pub merged : (ℕ → ℕ) → ℤ → ℤ → Cluster → GossipMembership × List MemberRecord
merged clock a b c = merge_view clock (records (c a).member_table) (c b)

-- What `start` makes of the answer of a seed.
abbrev pub seeded_by : (ℕ → ℕ) → List MemberRecord → GossipMembership → GossipMembership
seeded_by clock answer g = record g {
  member_table = seed_merge g.self_node_id clock answer g.member_table;
}

-- The steps of a cluster, of which a round of `gossipLoop` is three: a heartbeat, the failure
-- detection, and an exchange with or without an answer. `departs` is the mark that `stop` makes, and
-- `restarts` the constructor, which may also be the first start of a node. `bootstraps` is the
-- contact of one seed in `start`.
pub data Step (c : Cluster) : Cluster → Type 0 where
  beats : (i : ℤ) (now : ℕ) → HasRoom (c i) → Step c (replaced i (at_self (beat now) (c i)) c)
  detects : (i : ℤ) (now : ℕ) → Step c (replaced i (detect_failures now (c i)) c)
  departs :
      (i : ℤ)
      → HasRoom (c i)
      → Step c (replaced i (at_self depart (record (c i) { running = false })) c)
  restarts :
      (i : ℤ) (endpoint : Text) (seeds : List Text) (suspect_ms dead_ms : ℤ) (files : Files)
      (now : ℕ)
      → IsSaved c i files
      → Step c (replaced i (create i endpoint seeds suspect_ms dead_ms files now).0 c)
  unanswered : (a b : ℤ) (clock : ℕ → ℕ) → Step c (replaced b (merged clock a b c).0 c)
  bootstraps :
      (a b : ℤ) (clock clock' : ℕ → ℕ) (e : MemberEntry)
      → own (replaced b (merged clock a b c).0 c a) ≡ some e
      → Step c (
          replaced a
            (seeded_by clock' (merged clock a b c).1 (replaced b (merged clock a b c).0 c a))
            (replaced b (merged clock a b c).0 c))
  exchanges :
      (a b : ℤ) (clock clock' : ℕ → ℕ)
      → Step c (
          replaced a
            (take_response clock'
              (some (merged clock a b c).1)
              (replaced b (merged clock a b c).0 c a))
            (replaced b (merged clock a b c).0 c))

pub data Reach (c : Cluster) : Cluster → Type 0 where
  here : Reach c c
  next : {d e : Cluster} → Reach c d → Step d e → Reach c e

one_more :
    (g : GossipMembership)
    → HasRoom g
    → (e : MemberEntry) → own g ≡ some e
    → e.info.heartbeat_counter ≤ (e.info.heartbeat_counter + 1) % u64_mod
one_more g room e h = rw (mod-eq_of_lt (room e h)) (omega arith)

merged-IsSound :
    (a b : ℤ) (clock : ℕ → ℕ) (c : Cluster)
    → IsSound c
    → IsSound (replaced b (merged clock a b c).0 c)
merged-IsSound a b clock c s =
    replaced-IsSound c b (merged clock a b c).0 s
      (merge-Change c s b (c a).member_table (s.shaped a) (s.heard a) clock)

-- The answer of `b` is its table after the merge.
answered-IsSound :
    (a b : ℤ) (clock : ℕ → ℕ) (d : Cluster)
    → IsSound d
    → IsSound (replaced a (take_response clock (some (records (d b).member_table)) (d a)) d)
answered-IsSound a b clock d s =
    replaced-IsSound d a _ s
      (response-Change d s a (d b).member_table (s.shaped b) (s.heard b) clock)

abbrev after_merge : (ℕ → ℕ) → ℤ → ℤ → Cluster → Cluster
after_merge clock a b c = replaced b (merged clock a b c).0 c

answer_is_table :
    (clock : ℕ → ℕ) (a b : ℤ) (c : Cluster)
    → records (after_merge clock a b c b).member_table ≡ (merged clock a b c).1
answer_is_table clock a b c =
    ap (λ n. records n.member_table) (replaced_at b (merged clock a b c).0 c b refl)
    ∙ sym (response-records clock (records (c a).member_table) (c b))

Step-IsSound : (c d : Cluster) → IsSound c → Step c d → IsSound d
Step-IsSound c d s (beats i now room) = replaced-IsSound c i _ s (
    bump-Change c s i (beat now) (c i) (s.named i) refl (λ e. refl)
      (λ e h. (refl, one_more (c i) room e h)))
Step-IsSound c d s (detects i now) = replaced-IsSound c i _ s (detect-Change c s i now)
Step-IsSound c d s (departs i room) = replaced-IsSound c i _ s (
    bump-Change c s i depart (record (c i) { running = false }) (s.named i) refl (λ e. refl)
      (λ e h. (refl, one_more (c i) room e h)))
Step-IsSound c d s (restarts i endpoint seeds suspect_ms dead_ms files now saved) =
    replaced-IsSound c i _ s (restart-Change c i endpoint seeds suspect_ms dead_ms files now saved)
Step-IsSound c d s (unanswered a b clock) = merged-IsSound a b clock c s
Step-IsSound c d s (bootstraps a b clock clock' e mine) =
    let s' = merged-IsSound a b clock c s in
    subst
      (λ rs.
        IsSound
          (replaced a (seeded_by clock' rs (after_merge clock a b c a)) (after_merge clock a b c)))
      (answer_is_table clock a b c)
      (replaced-IsSound (after_merge clock a b c) a _ s'
        (seed-Change (after_merge clock a b c) s' a _ e (s'.shaped b) (s'.heard b) mine clock'))
Step-IsSound c d s (exchanges a b clock clock') =
    subst
      (λ rs. IsSound (
        replaced a (take_response clock' (some rs) (after_merge clock a b c a))
          (after_merge clock a b c)))
      (answer_is_table clock a b c)
      (answered-IsSound a b clock' (after_merge clock a b c) (merged-IsSound a b clock c s))

Reach-IsSound : (c d : Cluster) → IsSound c → Reach c d → IsSound d
Reach-IsSound c _ s here = s
Reach-IsSound c _ s (next {d} {e} r p) = Step-IsSound d e (Reach-IsSound c d s r) p

-- In every run of a cluster by heartbeats, failure detections, exchanges, answered or not, departures,
-- restarts and contacts of seeds by a node that has its own entry, no node comes to know of a generation and heartbeat of a node that this node has not
-- reached itself, if it was so at the start, each table had one entry for an id, under the id of its
-- record, no heartbeat of 64 bits and no generation of 32 bits wraps, and a node restarts from a file
-- that has its generation or a greater one.
pub no_rumours :
    (c d : Cluster)
    → IsSound c
    → Reach c d
    → (i id : ℤ) (v : Version) → known id (d i).member_table ≡ some v
    → Reached (known id (d id).member_table) v
no_rumours c d s r = (Reach-IsSound c d s r).heard
