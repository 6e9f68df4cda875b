-- ===== src/Tests/Clusters.antt =====
-- Instances of the theorems on several nodes of src/GossipMembership.cpp.
use mathlib.Core.Path.{subst}
use hpe_distributed_key_valu.Prelude.{
  ℕ, ◌≡◌, refl, sym, ap, ◌∙◌, inl, inr, true, false, List, [], ◌∷◌, none, some, if◌then◌else◌,
  codes, ℤ, pos,
}
use hpe_distributed_key_valu.Gossip.{
  MemberEntry, MemberRecord, GossipMembership, find, put, alive, merge_view, take_response,
  take_all, take_in, round_known, merge_known, notify_change,
}
use hpe_distributed_key_valu.Gossip.Versions.{Version, version, version_of, known}
use hpe_distributed_key_valu.Gossip.Rumours.{
  replaced, Reached, Cluster, IsSound, Reached-itself, id_cases,
}
use hpe_distributed_key_valu.Gossip.Runs.{merged, exchanges, here, next, no_rumours}

abbrev started : ℤ → MemberEntry
started i = record {
  info = record {
    node_id = i;
    endpoint = codes "10.0.0.1:5000";
    status = alive;
    heartbeat_counter = 1;
    generation = 1;
  };
  last_updated_ms = 0;
}

-- Every node knows of itself alone.
abbrev strangers : Cluster
strangers i = record {
  self_node_id = i;
  self_endpoint = codes "10.0.0.1:5000";
  seed_nodes = [];
  suspect_threshold_ms = pos 3_000;
  dead_threshold_ms = pos 10_000;
  member_table = (i, started i) ∷ [];
  running = true;
  has_callback = false;
  last_alive_set = [];
  generation = 1;
  delivered = [];
}

own_alone :
    (i id : ℤ) (v : Version)
    → known id (strangers i).member_table ≡ some v
    → Reached (known id (strangers id).member_table) v
unfolding find
own_alone i id v h = elim (id_cases i id) [
  | inl on ↦
      Reached-itself (known id (strangers id).member_table) v
        (subst (λ k. known id (strangers k).member_table ≡ some v) on h)
  | inr off ↦
      absurd (nothing (ap (λ b. version_of (if b then some (started i) else none)) (sym off.0) ∙ h))
]
  where
    nothing : {A : Type 0} {a : A} → none ≡ some a → ⊥
    nothing e = cc

strangers-IsSound : IsSound strangers
unfolding find
strangers-IsSound = record {
  named = λ i. refl;
  shaped = λ i. (refl, (refl, tt));
  heard = own_alone;
}

abbrev zero_clock : ℕ → ℕ
zero_clock i = 0

-- Node 0 sends its view to node 1, and takes the answer.
abbrev asked : GossipMembership × List MemberRecord
asked = merged zero_clock (pos 0) (pos 1) strangers

abbrev met : Cluster
met =
    replaced (pos 0)
      (take_response zero_clock (some asked.1) (replaced (pos 1) asked.0 strangers (pos 0)))
      (replaced (pos 1) asked.0 strangers)

learned : known (pos 1) (met (pos 0)).member_table ≡ some (version (started (pos 1)).info)
unfolding merge_view take_all take_in find round_known merge_known put notify_change
learned = refl

no_rumours_example :
    Reached (known (pos 1) (met (pos 1)).member_table) (version (started (pos 1)).info)
no_rumours_example =
    no_rumours strangers met strangers-IsSound
      (next here (exchanges (pos 0) (pos 1) zero_clock zero_clock)) (pos 0) (pos 1)
      (version (started (pos 1)).info) learned
