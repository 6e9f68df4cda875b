-- ===== src/Gossip/Restarts.antt =====
-- A node of src/GossipMembership.cpp that is made again in a cluster, from its generation file.
use mathlib.Core.Path.{subst}
use hpe_distributed_key_valu.Prelude.{
  ℕ, ◌+◌, ◌%◌, ◌^◌, ◌≤◌, ◌<◌, ◌≡◌, refl, sym, ◌∙◌, inl, inr, List, Option, none, some, arith, Text,
  ℤ,
}
use hpe_distributed_key_valu.Gossip.Versions.{Version, known}
use hpe_distributed_key_valu.Gossip.Rumours.{Reached, Cluster, Change}
use hpe_distributed_key_valu.Gossip.Generations.{
  Files, load_generation, create, create-known, create-unknown, create-IsTable, create_self,
}

-- The file of the node has at least the generation that the node's own entry has, and the next one
-- fits its 32 bits.
pub record IsSaved (c : Cluster) (i : ℤ) (files : Files) : Type 0 where
  pub kept :
      (v : Version) → known i (c i).member_table ≡ some v → v.generation ≤ load_generation i files
  pub room : load_generation i files + 1 < 2 ^ 32

higher-Reached :
    (o : Option Version) (v : Version) (n : ℕ)
    → ((w : Version) → o ≡ some w → w.generation < n)
    → Reached o v
    → Reached (some (record { generation = n; heartbeat = 0; severity = 0 })) v
higher-Reached none v n h r = absurd r
higher-Reached (some w) v n h (inl lt) = inl (omega (arith, lt, h w refl))
higher-Reached (some w) v n h (inr (same, le)) = inl (omega (arith, same, h w refl))

pub restart-Change :
    (c : Cluster) (i : ℤ) (endpoint : Text) (seeds : List Text) (suspect_ms dead_ms : ℤ)
    (files : Files) (now : ℕ)
    → IsSaved c i files
    → Change c i (create i endpoint seeds suspect_ms dead_ms files now).0
restart-Change c i endpoint seeds suspect_ms dead_ms files now saved = record {
  named = create_self i endpoint seeds suspect_ms dead_ms files now;
  shaped = create-IsTable i endpoint seeds suspect_ms dead_ms files now;
  heard = λ id ne v e.
      absurd (cc (sym e ∙ create-unknown i endpoint seeds suspect_ms dead_ms files now id ne));
  grows = λ v r.
      subst (λ o. Reached o v) (sym (create-known i endpoint seeds suspect_ms dead_ms files now))
        (higher-Reached _ v _ newer r);
}
  where
    newer :
        (w : Version)
        → known i (c i).member_table ≡ some w
        → w.generation < (load_generation i files + 1) % 2 ^ 32
    newer w e = omega (arith, saved.kept w e, saved.room)
