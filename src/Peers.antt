-- ===== src/Peers.antt =====
-- `sendGossipExchange` of src/GossipMembership.cpp over the network, answered by the handler of
-- src/KVServer.cpp: a round of gossip between two servers.
use hpe_distributed_key_valu.Prelude.{
  ℕ, ◌≡◌, ◌≢◌, ap, ◌∙◌, false, List, Option, none, some, is_empty, All, Text, ℤ,
}
use hpe_distributed_key_valu.Store.{Segment}
use hpe_distributed_key_valu.Gossip.{
  MemberRecord, GossipMembership, Exchange, records, merge_view, take_response, do_gossip_round,
  pick_random_peer,
}
use hpe_distributed_key_valu.Gossip.Shape.{IsTable}
use hpe_distributed_key_valu.Gossip.Endpoints.{IsAt, info, exchange_shares}
use hpe_distributed_key_valu.Server.{Response, KvServer, handle, exchange, gossip_exchange, view}
use hpe_distributed_key_valu.Network.{Network, IsRpc}

-- `none` is an exception: of the lookup or the call, or where the response is not a view.
abbrev pub as_records : Option Response → Option (List MemberRecord)
as_records (some (view members)) = some members
as_records _ = none

module _ (N : Network) where
  unfoldable pub send_gossip_exchange :
      Text → List MemberRecord → N.World → Option (List MemberRecord) × N.World
  send_gossip_exchange peer_endpoint local_view w =
      let (r, w') = N.call peer_endpoint (gossip_exchange local_view) w in (as_records r, w')

  -- The exchange of a round that starts in the world `w`.
  abbrev pub exchange_in : N.World → Exchange
  exchange_in w peer_endpoint local_view = (send_gossip_exchange peer_endpoint local_view w).0

-- What the handler of a server does with a view.
answered_view :
    (S : Segment) (clock : ℕ → ℕ) (s : KvServer S.Mem) (p : GossipMembership)
    (incoming : List MemberRecord)
    → s.membership ≡ some p
    → ((handle S clock (gossip_exchange incoming) s).1 ≡ view (merge_view clock incoming p).1)
      × ((handle S clock (gossip_exchange incoming) s).0
          ≡ record s { membership = some (merge_view clock incoming p).0 })
unfolding handle
answered_view S clock s p incoming h =
    (ap (λ m. (exchange clock incoming s m).1) h, ap (λ m. (exchange clock incoming s m).0) h)

module _ (S : Segment) (clock : ℕ → ℕ) (N : Network) (rpc : IsRpc S clock N) where
  round_answer :
      (random_int clock' : ℕ → ℕ) (g : GossipMembership) (w : N.World) (rs : List MemberRecord)
      → is_empty (pick_random_peer random_int g) ≡ false
      → exchange_in N w (pick_random_peer random_int g) (records g.member_table) ≡ some rs
      → do_gossip_round (exchange_in N w) random_int clock' g ≡ take_response clock' (some rs) g
  unfolding do_gossip_round
  round_answer random_int clock' g w rs some_peer e =
      rw some_peer (ap (λ o. take_response clock' o g) e)

  -- In a round of gossip whose peer is a server with a membership, and whose call is answered: the
  -- server's membership is then its merge of the view that was sent, and it and the node that sent
  -- the view have the same record of every third node, endpoint and all, if their tables had one entry
  -- for an id, under the id of its record, and each record had the endpoint of its node in its
  -- generation.
  pub peers_agree :
      (endpoint_of : ℤ → ℕ → Text) (random_int clock' : ℕ → ℕ) (g p : GossipMembership)
      (w : N.World) (s : KvServer S.Mem) (r : Response) (id : ℤ)
      → is_empty (pick_random_peer random_int g) ≡ false
      → rpc.server (pick_random_peer random_int g) w ≡ some s
      → s.membership ≡ some p
      → (N.call (pick_random_peer random_int g) (gossip_exchange (records g.member_table)) w).0
        ≡ some r
      → IsTable g.member_table
      → IsTable p.member_table
      → All (IsAt endpoint_of) (records g.member_table)
      → All (IsAt endpoint_of) (records p.member_table)
      → id ≢ g.self_node_id
      → id ≢ p.self_node_id
      → (rpc.server
            (pick_random_peer random_int g)
            (send_gossip_exchange N (pick_random_peer random_int g) (records g.member_table) w).1
          ≡ some (record s { membership = some (merge_view clock (records g.member_table) p).0 }))
        × (info id (do_gossip_round (exchange_in N w) random_int clock' g).member_table
            ≡ info id (merge_view clock (records g.member_table) p).0.member_table)
  unfolding send_gossip_exchange
  peers_agree endpoint_of random_int clock' g p w s r id some_peer at_peer joined got shape shape'
        at at' not_g not_p =
      let sent = records g.member_table in
      let answer =
        rpc.call-answered (pick_random_peer random_int g) (gossip_exchange sent) w s r at_peer
          got in
      let handled = answered_view S clock s p sent joined in
      let response = ap as_records (got ∙ ap some (answer.0 ∙ handled.0)) in
      (
        answer.1 ∙ ap some handled.1,
        ap (λ n. info id n.member_table)
              (round_answer random_int clock' g w (merge_view clock sent p).1 some_peer response)
            ∙ exchange_shares endpoint_of clock' clock g p id shape shape' at at' not_g not_p,
      )
