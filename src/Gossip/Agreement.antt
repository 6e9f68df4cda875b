-- ===== src/Gossip/Agreement.antt =====
-- One exchange of src/GossipMembership.cpp between two nodes: `doGossipRound` at the one, and
-- `mergeView`, which the handler of the other calls.
use hpe_distributed_key_valu.Prelude.{
  ℕ, ◌≡◌, ◌≢◌, refl, sym, ap, ◌∙◌, false, List, [], ◌∷◌, Option, none, some, arith, ℤ, ◌==ℤ◌,
  ==ℤ_iff, Bool-cases, inl, inr,
}
use hpe_distributed_key_valu.Gossip.State.{
  MemberRecord, MemberTable, GossipMembership, find, records,
}
use hpe_distributed_key_valu.Gossip.Merge.{merge_known, merge_view, take_all, take_response}
use hpe_distributed_key_valu.Gossip.Versions.{
  Version, version, join, known, told, merge_view-told, take_response-merge_view, settle-table,
}
use hpe_distributed_key_valu.Gossip.Shape.{IsTable, merge_view-IsTable}

-- The greater of two things known.
abbrev pub both_known : Option Version → Option Version → Option Version
both_known o none = o
both_known o (some v) = join o v

-- To be told a whole table is to join what it knows.
pub told-records :
    (self id : ℤ) (table : MemberTable) (o : Option Version)
    → IsTable table
    → (id ==ℤ self) ≡ false
    → told self id (records table) o ≡ both_known o (known id table)
unfolding told find
told-records self id [] o t peer = refl
told-records self id ((k, e) ∷ table) o t peer = elim (Bool-cases (k ==ℤ id)) [
  | inl here ↦ ground (
    arith,
    told-records self id table (join o (version e.info)) t.1.1 peer,
    t.0,
    t.1.0,
    ==ℤ_iff k id,
  )
  | inr there ↦ ground (arith, told-records self id table o t.1.1 peer, t.0, there)
]

both_known-absorb : (a b : Option Version) → both_known a (both_known b a) ≡ both_known b a
unfolding join
both_known-absorb none none = refl
both_known-absorb none (some w) = refl
both_known-absorb (some v) none = ground arith
both_known-absorb (some v) (some w) = ground arith

pub other_id : (id self : ℤ) → id ≢ self → (id ==ℤ self) ≡ false
other_id id self h = elim (Bool-cases (id ==ℤ self)) [
  | inl own ↦ absurd (h ((==ℤ_iff id self).0 own))
  | inr other ↦ other
]

pub response-records :
    (clock : ℕ → ℕ) (incoming : List MemberRecord) (g : GossipMembership)
    → (merge_view clock incoming g).1 ≡ records (merge_view clock incoming g).0.member_table
unfolding merge_view
response-records clock incoming g =
    ap records (
      sym
        (settle-table g (take_all merge_known g.self_node_id clock incoming g.member_table false)))

-- The node `a` sends its view to the node `b`, which merges it and answers with its own, and `a`
-- takes the answer. The tables of both have each entry under the id of its record and one entry for
-- an id. Then both nodes know the same generation, heartbeat and status of every third node.
pub exchange_agrees :
    (clock clock' : ℕ → ℕ) (a b : GossipMembership) (id : ℤ)
    → IsTable a.member_table
    → IsTable b.member_table
    → id ≢ a.self_node_id
    → id ≢ b.self_node_id
    → known id
        (take_response clock (some (merge_view clock' (records a.member_table) b).1) a).member_table
      ≡ known id (merge_view clock' (records a.member_table) b).0.member_table
exchange_agrees clock clock' a b id ta tb not_a not_b =
    let b' = (merge_view clock' (records a.member_table) b).0 in
    let response = (merge_view clock' (records a.member_table) b).1 in
    let at_b : known id b'.member_table
        ≡ both_known (known id b.member_table) (known id a.member_table) =
      merge_view-told clock' (records a.member_table) b id
      ∙ told-records b.self_node_id id a.member_table (known id b.member_table) ta
          (other_id id b.self_node_id not_b) in
    let at_a =
      ap (λ r. told a.self_node_id id r (known id a.member_table))
        (response-records clock' (records a.member_table) b)
      ∙ told-records a.self_node_id id b'.member_table (known id a.member_table)
          (merge_view-IsTable clock' (records a.member_table) b tb)
          (other_id id a.self_node_id not_a) in
    take_response-merge_view clock clock' response a id
    ∙ merge_view-told clock' response a id
    ∙ at_a
    ∙ ap (both_known (known id a.member_table)) at_b
    ∙ both_known-absorb (known id a.member_table) (known id b.member_table)
    ∙ sym at_b
