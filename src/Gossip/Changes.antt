-- ===== src/Gossip/Changes.antt =====
-- What a node of src/GossipMembership.cpp does in a cluster: a merge, an answer, the failure detection
-- and a new heartbeat of its own, as changes of the cluster.
use mathlib.Core.Path.{subst}
use hpe_distributed_key_valu.Prelude.{
  ℕ, ◌≤◌, ◌≡◌, ◌≢◌, refl, sym, ap, ◌∙◌, ◌⊎◌, inl, inr, Option, none, some, arith, ℤ, Option-cases,
}
use hpe_distributed_key_valu.Gossip.State.{
  MemberEntry, MemberTable, GossipMembership, find, put, records,
}
use hpe_distributed_key_valu.Gossip.Merge.{merge_view, take_response}
use hpe_distributed_key_valu.Gossip.Rounds.{at_self, detect_failures}
use hpe_distributed_key_valu.Gossip.Table.{find-put}
use hpe_distributed_key_valu.Gossip.Versions.{
  Version, version, version_of, join, known, told, merge_view-told, take_response-merge_view,
}
use hpe_distributed_key_valu.Gossip.Shape.{
  IsTable, merge_view-IsTable, take_response-IsTable, at_self-IsTable, detect_failures-IsTable,
}
use hpe_distributed_key_valu.Gossip.Self.{
  own, merge_view-own, take_response-own, detect_failures-own, own-at_self,
}
use hpe_distributed_key_valu.Gossip.Convergence.{self-settle, self-merge_view}
use hpe_distributed_key_valu.Gossip.Agreement.{both_known, told-records, other_id}
use hpe_distributed_key_valu.Gossip.Failures.{aged?, detect_failures-find}
use hpe_distributed_key_valu.Gossip.Rumours.{Reached, Cluster, IsSound, Change}

detect_failures_self :
    (now : ℕ) (g : GossipMembership) → (detect_failures now g).self_node_id ≡ g.self_node_id
unfolding detect_failures
detect_failures_self now g = self-settle g _

either_known :
    (o p : Option Version) (v : Version) → both_known o p ≡ some v → (o ≡ some v) ⊎ (p ≡ some v)
unfolding join
either_known o none v h = inl h
either_known none (some w) v h = inr h
either_known (some u) (some w) v h = ground (arith, h)

module _ (c : Cluster) (s : IsSound c) (i : ℤ) where
  -- What the node says of itself.
  known_own :
      (g : GossipMembership) → g.self_node_id ≡ i → known i g.member_table ≡ version_of (own g)
  known_own g e = ap (λ k. version_of (find k g.member_table)) (sym e)

  kept-grows :
      (g : GossipMembership)
      → g.self_node_id ≡ i
      → own g ≡ own (c i)
      → (v : Version) → Reached (known i (c i).member_table) v
      → Reached (known i g.member_table) v
  kept-grows g e h v r =
      subst (λ o. Reached o v)
        (known_own (c i) (s.named i) ∙ (sym (ap version_of h) ∙ sym (known_own g e))) r

  -- A table that says nothing that is not reached.
  module _ (t : MemberTable) (shape : IsTable t)
      (heard : (id : ℤ) (v : Version)
        → known id t ≡ some v
        → Reached (known id (c id).member_table) v) where
    told-Reached :
        (id : ℤ)
        → id ≢ i
        → (v : Version)
        → told (c i).self_node_id id (records t) (known id (c i).member_table) ≡ some v
        → Reached (known id (c id).member_table) v
    told-Reached id ne v e =
        elim (either_known (known id (c i).member_table) (known id t) v (
          sym (
            told-records (c i).self_node_id id t (known id (c i).member_table) shape
              (other_id id (c i).self_node_id (λ x. ne (x ∙ s.named i))))
          ∙ e)) [ inl before ↦ s.heard i id v before | inr said ↦ heard id v said ]

    pub merge-Change : (clock : ℕ → ℕ) → Change c i (merge_view clock (records t) (c i)).0
    merge-Change clock = record {
      named = self-merge_view clock (records t) (c i) ∙ s.named i;
      shaped = merge_view-IsTable clock (records t) (c i) (s.shaped i);
      heard =
          λ id ne v e. told-Reached id ne v (sym (merge_view-told clock (records t) (c i) id) ∙ e);
      grows =
          kept-grows (merge_view clock (records t) (c i)).0
            (self-merge_view clock (records t) (c i) ∙ s.named i)
            (merge_view-own clock (records t) (c i));
    }

    pub response-Change :
        (clock : ℕ → ℕ) → Change c i (take_response clock (some (records t)) (c i))
    response-Change clock = record {
      named = same ∙ s.named i;
      shaped = take_response-IsTable clock (some (records t)) (c i) (s.shaped i);
      heard = λ id ne v e. told-Reached id ne v (
          sym (merge_view-told clock (records t) (c i) id)
          ∙ (sym (take_response-merge_view clock clock (records t) (c i) id) ∙ e));
      grows =
          kept-grows (take_response clock (some (records t)) (c i)) (same ∙ s.named i)
            (take_response-own clock (some (records t)) (c i));
    }
      where
        same : (take_response clock (some (records t)) (c i)).self_node_id ≡ (c i).self_node_id
        same = self-settle (c i) _

  -- The ageing of an entry changes no generation and no heartbeat.
  Reached-aged :
      (suspect_ms dead_ms : ℤ) (now : ℕ) (K : Option Version) (o : Option MemberEntry) (v : Version)
      → version_of (aged? suspect_ms dead_ms now o) ≡ some v
      → ((w : Version) → version_of o ≡ some w → Reached K w)
      → Reached K v
  Reached-aged suspect_ms dead_ms now K none v e h = absurd (cc)
  Reached-aged suspect_ms dead_ms now none (some m) v e h = absurd (h (version m.info) refl)
  Reached-aged suspect_ms dead_ms now (some w) (some m) v e h =
      subst (Reached (some w)) (some_version e) (h (version m.info) refl)
    where
      some_version : {x y : Version} → some x ≡ some y → x ≡ y
      some_version q = cc

  pub detect-Change : (now : ℕ) → Change c i (detect_failures now (c i))
  detect-Change now = record {
    named = same ∙ s.named i;
    shaped = detect_failures-IsTable now (c i) (s.shaped i);
    heard = λ id ne v e.
        Reached-aged (c i).suspect_threshold_ms (c i).dead_threshold_ms now
          (known id (c id).member_table) (find id (c i).member_table) v (sym (known_aged id ne) ∙ e)
          (s.heard i id);
    grows =
        kept-grows (detect_failures now (c i)) (same ∙ s.named i) (detect_failures-own now (c i));
  }
    where
      same : (detect_failures now (c i)).self_node_id ≡ (c i).self_node_id
      same = detect_failures_self now (c i)

      known_aged :
          (id : ℤ)
          → id ≢ i
          → known id (detect_failures now (c i)).member_table
            ≡ version_of (
                aged?
                  (c i).suspect_threshold_ms
                  (c i).dead_threshold_ms
                  now
                  (find id (c i).member_table))
      known_aged id ne =
          ap version_of (detect_failures-find now (c i) id)
          ∙ rw (other_id id (c i).self_node_id (λ x. ne (x ∙ s.named i))) refl

  -- A new heartbeat of the node itself.
  module _ (change : MemberEntry → MemberEntry) (g : GossipMembership)
      (same_id : g.self_node_id ≡ i) (same_table : g.member_table ≡ (c i).member_table)
      (keeps : (e : MemberEntry) → (change e).info.node_id ≡ e.info.node_id)
      (raises : (e : MemberEntry)
        → own g ≡ some e
        → ((change e).info.generation ≡ e.info.generation)
          × (e.info.heartbeat_counter ≤ (change e).info.heartbeat_counter)) where
    bumped : Option MemberEntry → GossipMembership
    bumped none = g
    bumped (some e) = record g { member_table = put g.self_node_id (change e) g.member_table }

    at_self-bumped : at_self change g ≡ bumped (own g)
    unfolding bumped
    at_self-bumped = by_entry (own g)
      where
        by_entry :
            (o : Option MemberEntry)
            → (elim o [
              | none ↦ g
              | some e ↦ record g { member_table = put g.self_node_id (change e) g.member_table }
            ])
              ≡ bumped o
        by_entry none = refl
        by_entry (some e) = refl

    bumped_self : (o : Option MemberEntry) → (bumped o).self_node_id ≡ i
    unfolding bumped
    bumped_self none = same_id
    bumped_self (some e) = same_id

    bumped-known :
        (o : Option MemberEntry) (id : ℤ)
        → id ≢ i
        → known id (bumped o).member_table ≡ known id (c i).member_table
    unfolding bumped
    bumped-known none id ne = ap (known id) same_table
    bumped-known (some e) id ne =
        ap version_of (find-put g.self_node_id id (change e) g.member_table)
        ∙ (rw (other_id g.self_node_id id (λ x. ne (sym x ∙ same_id))) refl
            ∙ ap (known id) same_table)

    own_same : own g ≡ own (c i)
    own_same =
        ap (λ k. find k g.member_table) (same_id ∙ sym (s.named i))
        ∙ ap (find (c i).self_node_id) same_table

    pub bump-Change : Change c i (at_self change g)
    unfolding bumped
    bump-Change = record {
      named = ap (λ n. n.self_node_id) at_self-bumped ∙ bumped_self (own g);
      shaped = at_self-IsTable change g keeps (subst IsTable (sym same_table) (s.shaped i));
      heard = λ id ne v e. s.heard i id v (
          sym (bumped-known (own g) id ne)
          ∙ (sym (ap (λ n. known id n.member_table) at_self-bumped) ∙ e));
      grows = by_own (Option-cases (own g));
    }
      where
        named' : (at_self change g).self_node_id ≡ i
        named' = ap (λ n. n.self_node_id) at_self-bumped ∙ bumped_self (own g)

        higher :
            (e : MemberEntry)
            → own g ≡ some e
            → (v : Version) → Reached (some (version e.info)) v
            → Reached (some (version (change e).info)) v
        higher e h v (inl lt) = inl (omega (arith, (raises e h).0))
        higher e h v (inr (same, le)) =
            inr (same ∙ sym (raises e h).0, omega (arith, (raises e h).1))

        by_own :
            (own g ≡ none) ⊎ ((e : MemberEntry) × (own g ≡ some e))
            → (v : Version) → Reached (known i (c i).member_table) v
            → Reached (known i (at_self change g).member_table) v
        by_own (inl missing) v r =
            kept-grows (at_self change g) named'
              (ap own (at_self-bumped ∙ ap bumped missing) ∙ own_same) v r
        by_own (inr (e, h)) v r =
            subst (λ o. Reached o v)
              (sym (known_own (at_self change g) named' ∙ ap version_of (own-at_self change g e h)))
              (higher e h v (
                subst (λ o. Reached o v)
                  (known_own (c i) (s.named i) ∙ ap version_of (sym own_same ∙ h)) r))
