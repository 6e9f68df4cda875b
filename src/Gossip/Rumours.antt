-- ===== src/Gossip/Rumours.antt =====
-- Several nodes of src/GossipMembership.cpp: what one knows of the generation and the heartbeat of
-- another, against what that node has reached.
use hpe_distributed_key_valu.Prelude.{
  ◌<◌, ◌≤◌, ◌≡◌, ◌≢◌, refl, sym, ap, ◌∙◌, ◌⊎◌, inl, inr, false, Option, none, some, arith,
  if◌then◌else◌, ℤ, ◌==ℤ◌, ==ℤ_iff, Bool-cases,
}
use mathlib.Core.Path.{subst}
use hpe_distributed_key_valu.Gossip.State.{GossipMembership}
use hpe_distributed_key_valu.Gossip.Versions.{Version, known}
use hpe_distributed_key_valu.Gossip.Shape.{IsTable}

-- `v` is of no later generation and heartbeat than what is known.
abbrev pub Reached : Option Version → Version → Type 0
Reached none v = ⊥
Reached (some w) v =
    (v.generation < w.generation) ⊎ ((v.generation ≡ w.generation) × (v.heartbeat ≤ w.heartbeat))

abbrev pub Cluster : Type 0
Cluster = ℤ → GossipMembership

-- What the cluster's nodes know of a node, the node has reached; each table has one entry for an id,
-- under the id of its record.
pub record IsSound (c : Cluster) : Type 0 where
  pub named : (i : ℤ) → (c i).self_node_id ≡ i
  pub shaped : (i : ℤ) → IsTable (c i).member_table
  pub heard :
      (i id : ℤ) (v : Version)
      → known id (c i).member_table ≡ some v
      → Reached (known id (c id).member_table) v

abbrev pub replaced : ℤ → GossipMembership → Cluster → Cluster
replaced i g c j = if j ==ℤ i then g else c j

-- What one node may do to its state.
pub record Change (c : Cluster) (i : ℤ) (g : GossipMembership) : Type 0 where
  pub named : g.self_node_id ≡ i
  pub shaped : IsTable g.member_table
  pub heard :
      (id : ℤ)
      → id ≢ i
      → (v : Version) → known id g.member_table ≡ some v
      → Reached (known id (c id).member_table) v
  pub grows :
      (v : Version) → Reached (known i (c i).member_table) v → Reached (known i g.member_table) v

pub Reached-itself : (o : Option Version) (v : Version) → o ≡ some v → Reached o v
Reached-itself none v h = absurd (cc)
Reached-itself (some w) v h = inr (
  ap (λ (x : Version). x.generation) (same h),
  omega (arith, ap (λ (x : Version). x.heartbeat) (same h)),
)
  where
    same : some w ≡ some v → v ≡ w
    same e = cc

pub replaced_at :
    (i : ℤ) (g : GossipMembership) (c : Cluster) (j : ℤ) → j ≡ i → replaced i g c j ≡ g
replaced_at i g c j e = rw ((==ℤ_iff j i).1 e) refl

replaced_off :
    (i : ℤ) (g : GossipMembership) (c : Cluster) (j : ℤ)
    → (j ==ℤ i) ≡ false
    → replaced i g c j ≡ c j
replaced_off i g c j e = rw e refl

pub id_cases : (j i : ℤ) → (j ≡ i) ⊎ (((j ==ℤ i) ≡ false) × (j ≢ i))
id_cases j i = elim (Bool-cases (j ==ℤ i)) [
  | inl on ↦ inl ((==ℤ_iff j i).0 on)
  | inr off ↦ inr (off, λ e. absurd (cc (off, (==ℤ_iff j i).1 e)))
]

module _ (c : Cluster) (i : ℤ) (g : GossipMembership) (s : IsSound c) (h : Change c i g) where
  later-Reached :
      (id : ℤ) (v : Version)
      → Reached (known id (c id).member_table) v
      → Reached (known id (replaced i g c id).member_table) v
  later-Reached id v r = elim (id_cases id i) [
    | inl on ↦
        subst (λ n. Reached (known id n.member_table) v) (sym (replaced_at i g c id on))
          (subst (λ k. Reached (known k g.member_table) v) (sym on)
            (h.grows v (subst (λ k. Reached (known k (c k).member_table) v) on r)))
    | inr off ↦
        subst (λ n. Reached (known id n.member_table) v) (sym (replaced_off i g c id off.0)) r
  ]

  heard_here :
      (id : ℤ) (v : Version)
      → known id g.member_table ≡ some v
      → Reached (known id (replaced i g c id).member_table) v
  heard_here id v e = elim (id_cases id i) [
    | inl on ↦
        subst (λ n. Reached (known id n.member_table) v) (sym (replaced_at i g c id on))
          (Reached-itself (known id g.member_table) v e)
    | inr off ↦ later-Reached id v (h.heard id off.1 v e)
  ]

  heard_after :
      (j id : ℤ) (v : Version)
      → known id (replaced i g c j).member_table ≡ some v
      → Reached (known id (replaced i g c id).member_table) v
  heard_after j id v e = elim (id_cases j i) [
    | inl on ↦
        heard_here id v (subst (λ n. known id n.member_table ≡ some v) (replaced_at i g c j on) e)
    | inr off ↦ later-Reached id v (
        s.heard j id v
          (subst (λ n. known id n.member_table ≡ some v) (replaced_off i g c j off.0) e))
  ]

  -- A change of one node keeps the cluster sound.
  pub replaced-IsSound : IsSound (replaced i g c)
  replaced-IsSound = record {
    named = λ j. elim (id_cases j i) [
      | inl on ↦ rw (replaced_at i g c j on) (h.named ∙ sym on)
      | inr off ↦ rw (replaced_off i g c j off.0) (s.named j)
    ];
    shaped = λ j. elim (id_cases j i) [
      | inl on ↦ rw (replaced_at i g c j on) h.shaped
      | inr off ↦ rw (replaced_off i g c j off.0) (s.shaped j)
    ];
    heard = heard_after;
  }
