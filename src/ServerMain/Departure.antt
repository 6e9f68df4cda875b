-- ===== src/ServerMain/Departure.antt =====
-- A server of src/main_server.cpp that stops, and the ring of a server that it tells.
use native.Mathlib.Nat.{mod-eq_of_lt}
use mathlib.Core.Path.{subst}
use hpe_distributed_key_valu.Prelude.{
  ℕ, ◌+◌, ◌<◌, ◌≡◌, ◌≢◌, refl, sym, ap, ◌∙◌, inl, inr, true, false, List, [], ◌∷◌, Option, none,
  some, arith, any, All, All-imp, firsts, Text, ℤ, pos, ◌==ℤ◌, ==ℤ_refl,
}
use hpe_distributed_key_valu.Ring.Nodes.{IsNode, rebuild-All}
use hpe_distributed_key_valu.Gossip.{
  MemberEntry, GossipMembership, find, put, records, depart, at_self, merge_view, live_endpoints,
  u64_mod,
}
use hpe_distributed_key_valu.Gossip.Table.{find-put}
use hpe_distributed_key_valu.Gossip.Versions.{
  Version, version, version_of, known, told, join, merge_view-told,
}
use hpe_distributed_key_valu.Gossip.Agreement.{both_known, told-records, other_id}
use hpe_distributed_key_valu.Gossip.Self.{own}
use hpe_distributed_key_valu.Gossip.Shape.{IsTable, merge_view-IsTable, at_self-IsTable}
use hpe_distributed_key_valu.Gossip.Rumours.{Reached}
use hpe_distributed_key_valu.Gossip.Alive.{alive_set, ids-alive, IsTold, IsDelivered}
use hpe_distributed_key_valu.Gossip.SameSet.{has, lives, has-current_alive}
use hpe_distributed_key_valu.Gossip.Notices.{IsHeard, merge_view-IsNotified}
use hpe_distributed_key_valu.ServerMain.Rings.{server_ring, told_ring}

-- The state in which `stop` sends its last view.
abbrev pub departing : GossipMembership → GossipMembership
departing g = at_self depart (record g { running = false })

newer :
    (w : Version) (e : MemberEntry)
    → Reached (some (version e.info)) w
    → e.info.heartbeat_counter + 1 < u64_mod
    → join (some w) (version (depart e).info) ≡ some (version (depart e).info)
unfolding join
newer w e (inl lt) room = ground (arith, lt)
newer w e (inr (same, le)) room = ground (arith, same, le, mod-eq_of_lt room)

joined_version :
    (o : Option Version) (e : MemberEntry)
    → ((w : Version) → o ≡ some w → Reached (some (version e.info)) w)
    → e.info.heartbeat_counter + 1 < u64_mod
    → both_known o (some (version (depart e).info)) ≡ some (version (depart e).info)
unfolding join
joined_version none e h room = refl
joined_version (some w) e h room = newer w e (h w refl) room

departed_version : Option MemberEntry → Option Version
departed_version none = none
departed_version (some d) = some (version (depart d).info)

abbrev left_with : GossipMembership → Option MemberEntry → GossipMembership
left_with g none = record g { running = false }
left_with g (some d) = record g {
  running = false;
  member_table = put g.self_node_id (depart d) g.member_table;
}

-- What the server says of itself when it stops.
departing-known :
    (g : GossipMembership) (e : MemberEntry)
    → own g ≡ some e
    → known g.self_node_id (departing g).member_table ≡ some (version (depart e).info)
unfolding departed_version
departing-known g e mine = by_entry (find g.self_node_id g.member_table) mine
  where
    written :
        (d : MemberEntry)
        → known g.self_node_id (put g.self_node_id (depart d) g.member_table)
          ≡ some (version (depart d).info)
    written d = rw (find-put, ==ℤ_refl g.self_node_id) refl

    by_entry :
        (o : Option MemberEntry)
        → o ≡ some e
        → known g.self_node_id (left_with g o).member_table ≡ some (version (depart e).info)
    by_entry none h = absurd (cc)
    by_entry (some d) h = written d ∙ ap departed_version h

-- The state of a node that merges that view.
abbrev told_of : GossipMembership → GossipMembership → (ℕ → ℕ) → GossipMembership
told_of g p clock = (merge_view clock (records (departing g).member_table) p).0

module _ (g p : GossipMembership) (e : MemberEntry) (clock : ℕ → ℕ) (mine : own g ≡ some e)
    (shape : IsTable g.member_table) (room : e.info.heartbeat_counter + 1 < u64_mod)
    (apart : g.self_node_id ≢ p.self_node_id)
    (behind : (w : Version)
      → known g.self_node_id p.member_table ≡ some w
      → Reached (some (version e.info)) w) where
  departed-known :
      known g.self_node_id (told_of g p clock).member_table ≡ some (version (depart e).info)
  departed-known =
      merge_view-told clock (records (departing g).member_table) p g.self_node_id
      ∙ (told-records p.self_node_id g.self_node_id (departing g).member_table
            (known g.self_node_id p.member_table)
            (at_self-IsTable depart (record g { running = false }) (λ d. refl) shape)
            (other_id g.self_node_id p.self_node_id apart)
          ∙ (ap (both_known (known g.self_node_id p.member_table)) (departing-known g e mine)
              ∙ joined_version (known g.self_node_id p.member_table) e behind room))

  departed_gone :
      IsTable p.member_table → has g.self_node_id (alive_set (told_of g p clock)) ≡ false
  departed_gone shape' =
      has-current_alive g.self_node_id (told_of g p clock).member_table []
        (merge_view-IsTable clock (records (departing g).member_table) p shape')
      ∙ not_alive (find g.self_node_id (told_of g p clock).member_table) departed-known
    where
      not_alive :
          (o : Option MemberEntry) → version_of o ≡ some (version (depart e).info) → lives o ≡ false
      not_alive none h = refl
      not_alive (some d) h = ground (arith, h)

has-firsts : (live : List (ℤ × Text)) (id : ℤ) → any (λ p. p.0 ==ℤ id) live ≡ has id (firsts live)
has-firsts [] id = refl
has-firsts ((k, _) ∷ live) id = ground (arith, has-firsts live id)

-- A server stops, and the view that it sends on its departure reaches another one that knew of it
-- no more than it has reached itself, and whose callback knew the live members of its table. Then
-- no token on the ring of the other is of the server that stops. The tables have one entry for an id,
-- under the id of its record, and the heartbeat of 64 bits does not wrap.
pub departed_leaves_ring :
    (g p : GossipMembership) (e : MemberEntry) (clock : ℕ → ℕ)
    → own g ≡ some e
    → IsTable g.member_table
    → e.info.heartbeat_counter + 1 < u64_mod
    → g.self_node_id ≢ p.self_node_id
    → ((w : Version)
        → known g.self_node_id p.member_table ≡ some w
        → Reached (some (version e.info)) w)
    → IsTable p.member_table
    → p.has_callback ≡ true
    → IsDelivered p
    → IsTold p
    → All
        (λ t. t.node_id ≢ g.self_node_id)
        (server_ring (merge_view clock (records (departing g).member_table) p).0)
departed_leaves_ring g p e clock mine shape room apart behind shape' set delivered told =
    let after = merge_view-IsNotified clock (records (departing g).member_table) p set in
    subst (All (λ t. t.node_id ≢ g.self_node_id))
      (sym (told_ring (told_of g p clock) (after.delivers delivered) (knows after.heard)))
      (All-imp _ _ (λ t on_ring same. not_live t.node_id on_ring same) _
        (rebuild-All
          (live_endpoints (alive_set (told_of g p clock)) (told_of g p clock).member_table)
          (pos 2)))
  where
    knows : IsHeard p (told_of g p clock) → IsTold (told_of g p clock)
    knows (inl now) = now
    knows (inr (alive, last, sent)) = last ∙ (told ∙ sym alive)

    not_live :
        (id : ℤ)
        → IsNode
            (live_endpoints (alive_set (told_of g p clock)) (told_of g p clock).member_table)
            id
        → id ≢ g.self_node_id
    not_live id on_ring same = absurd (
        cc (
          sym on_ring
          ∙ (has-firsts _ id
              ∙ (ap (has id) (ids-alive (told_of g p clock).member_table)
                  ∙ (ap (λ k. has k (alive_set (told_of g p clock))) same
                      ∙ departed_gone g p e clock mine shape room apart behind shape')))))
