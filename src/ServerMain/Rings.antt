-- ===== src/ServerMain/Rings.antt =====
-- The ring of a server: what the callback that `main` of src/main_server.cpp sets makes of the calls
-- that the gossip membership makes.
use hpe_distributed_key_valu.Prelude.{
  ℕ, suc, ◌≡◌, refl, sym, ap, ◌∙◌, ◌⊎◌, inl, inr, true, List, [], ◌∷◌, Option, none, some, if_all,
  firsts, Text, text_eq, ℤ, pos,
}
use hpe_distributed_key_valu.Ring.{Token}
use hpe_distributed_key_valu.Ring.Ids.{rebuild-firsts, rebuild_nothing}
use hpe_distributed_key_valu.Gossip.{
  MemberRecord, GossipMembership, Exchange, live_endpoints, merge_view, gossip_tick, start,
  contact_seeds, seed_merge, records,
}
use hpe_distributed_key_valu.Gossip.Alive.{alive_set, announced, ids-alive, IsTold, IsDelivered}
use hpe_distributed_key_valu.Gossip.Notices.{
  IsHeard, IsNotified, IsNotified-refl, IsNotified-trans, merge_view-IsNotified,
  gossip_tick-IsNotified,
}
use hpe_distributed_key_valu.Gossip.SameSet.{same_alive}
use hpe_distributed_key_valu.Gossip.Shape.{IsTable}
use hpe_distributed_key_valu.Gossip.Versions.{known}
use hpe_distributed_key_valu.ServerMain.{on_change}

abbrev pub ring_after : List (List (ℤ × Text)) → List Token
ring_after [] = []
ring_after (live ∷ _) = on_change live

-- The server's ring, empty until the callback has been called.
unfoldable pub server_ring : GossipMembership → List Token
server_ring g = ring_after g.delivered

pub unheard_ring : (g : GossipMembership) → g.delivered ≡ [] → server_ring g ≡ []
unfolding server_ring
unheard_ring g h = ap ring_after h

-- What happens to the membership of a running server: rounds of its loop, and views that come in.
pub data Life (g : GossipMembership) : GossipMembership → Type 0 where
  here : Life g g
  ticks :
      {h : GossipMembership} (exchange : Exchange) (random_int clock : ℕ → ℕ)
      → Life g h
      → Life g (gossip_tick exchange random_int clock h)
  receives :
      {h : GossipMembership} (clock : ℕ → ℕ) (incoming : List MemberRecord)
      → Life g h
      → Life g (merge_view clock incoming h).0

pub Life-IsNotified : (g h : GossipMembership) → g.has_callback ≡ true → Life g h → IsNotified g h
Life-IsNotified g _ set here = IsNotified-refl g
Life-IsNotified g _ set (ticks {h} exchange random_int clock life) =
    let before = Life-IsNotified g h set life in
    IsNotified-trans g h _ before
      (gossip_tick-IsNotified exchange random_int clock h (before.callback ∙ set))
Life-IsNotified g _ set (receives {h} clock incoming life) =
    let before = Life-IsNotified g h set life in
    IsNotified-trans g h _ before (merge_view-IsNotified clock incoming h (before.callback ∙ set))

on_change-ids :
    (live live' : List (ℤ × Text)) → firsts live ≡ firsts live' → on_change live ≡ on_change live'
on_change-ids live live' h = rebuild-firsts live live' (pos 2) h

server_ring-announced :
    (g : GossipMembership) (live : List (ℤ × Text))
    → announced g.delivered ≡ firsts live
    → server_ring g ≡ on_change live
unfolding server_ring
server_ring-announced g live h = by_calls g.delivered h
  where
    by_calls :
        (calls : List (List (ℤ × Text)))
        → announced calls ≡ firsts live
        → ring_after calls ≡ on_change live
    by_calls [] e = sym (rebuild_nothing (pos 2)) ∙ on_change-ids [] live e
    by_calls (last ∷ earlier) e = on_change-ids last live e

-- The ring of the members that the table has as alive.
abbrev pub live_ring : GossipMembership → List Token
live_ring g = on_change (live_endpoints (alive_set g) g.member_table)

pub told_ring : (g : GossipMembership) → IsDelivered g → IsTold g → server_ring g ≡ live_ring g
told_ring g delivered told =
    server_ring-announced g _ (delivered ∙ (told ∙ sym (ids-alive g.member_table)))

-- What the callback has been given, and whether it is set, are as before.
pub record IsSilent (g h : GossipMembership) : Type 0 where
  pub delivers : IsDelivered g → IsDelivered h
  pub callback : h.has_callback ≡ g.has_callback
  pub sent : h.delivered ≡ g.delivered

-- The contact of the seeds calls no callback.
contact_seeds-IsSilent :
    (exchange : Exchange) (clock : ℕ → ℕ → ℕ) (seeds : List Text) (g : GossipMembership)
    → IsSilent g (contact_seeds exchange clock seeds g)
unfolding contact_seeds
contact_seeds-IsSilent exchange clock [] g = record {
  delivers = λ d. d;
  callback = refl;
  sent = refl;
}
contact_seeds-IsSilent exchange clock (seed ∷ seeds) g =
    let later = contact_seeds-IsSilent exchange (λ i. clock (suc i)) seeds in
    if_all After (text_eq seed g.self_endpoint) (λ e. later g)
      (λ e. answered later (exchange seed (records g.member_table)))
  where
    After : GossipMembership → Type 0
    After h = IsSilent g (contact_seeds exchange (λ i. clock (suc i)) seeds h)

    answered :
        (later : (h : GossipMembership)
          → IsSilent h (contact_seeds exchange (λ i. clock (suc i)) seeds h))
        (o : Option (List MemberRecord))
        → After (elim o [
          | none ↦ g
          | some response ↦ record g {
            member_table = seed_merge g.self_node_id (clock 0) response g.member_table;
          }
        ])
    answered later none = later g
    answered later (some response) =
        let next = later (record g {
          member_table = seed_merge g.self_node_id (clock 0) response g.member_table;
        }) in
        record { delivers = next.delivers; callback = next.callback; sent = next.sent }

-- So is it when the membership has started.
pub start-IsSilent :
    (exchange : Exchange) (clock : ℕ → ℕ → ℕ) (g : GossipMembership)
    → IsSilent g (start exchange clock g)
unfolding start
start-IsSilent exchange clock g =
    let next = contact_seeds-IsSilent exchange clock g.seed_nodes (record g { running = true }) in
    record { delivers = next.delivers; callback = next.callback; sent = next.sent }

-- In every run of a server's membership from a state with a callback, by rounds of its loop and by
-- views that come in, if what was remembered as told at the start was what the callback had been given
-- last: the server's ring at the end is the one that `rebuild` makes of the live members of its table,
-- or both the set of live members and the ring are as they were at the start.
pub server_ring_follows :
    (g h : GossipMembership)
    → g.has_callback ≡ true
    → IsDelivered g
    → Life g h
    → (server_ring h ≡ live_ring h)
      ⊎ ((alive_set h ≡ alive_set g) × (server_ring h ≡ server_ring g))
unfolding server_ring
server_ring_follows g h set delivered life =
    let run = Life-IsNotified g h set life in by_heard (run.delivers delivered) run.heard
  where
    by_heard :
        IsDelivered h
        → IsHeard g h
        → (server_ring h ≡ live_ring h)
          ⊎ ((alive_set h ≡ alive_set g) × (server_ring h ≡ server_ring g))
    by_heard d (inl knows) = inl (told_ring h d knows)
    by_heard d (inr (alive, last, sent)) = inr (alive, ap ring_after sent)

-- Two servers have the same ring if the callback of each was last given the live members of its table,
-- each table has one entry for an id, under the id of its record, and the tables have the same
-- generation, heartbeat and status of every node.
pub servers_agree :
    (g h : GossipMembership)
    → IsDelivered g
    → IsDelivered h
    → IsTold g
    → IsTold h
    → IsTable g.member_table
    → IsTable h.member_table
    → ((id : ℤ) → known id g.member_table ≡ known id h.member_table)
    → server_ring g ≡ server_ring h
servers_agree g h d d' told told' shape shape' same =
    told_ring g d told
    ∙ (on_change-ids _ _ (
          ids-alive g.member_table
          ∙ (same_alive g.member_table h.member_table shape shape' same
              ∙ sym (ids-alive h.member_table)))
        ∙ sym (told_ring h d' told'))
