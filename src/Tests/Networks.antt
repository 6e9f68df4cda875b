-- ===== src/Tests/Networks.antt =====
-- Instances of the theorems on the distributor over remote servers. The network of the tests has one
-- server, at the endpoint `up`, and no call to another endpoint is answered.
use hpe_distributed_key_valu.Gossip.Endpoints.{info}
use hpe_distributed_key_valu.Prelude.{
  ℕ, if◌then◌else◌, ◌==ℤ◌, text_eq_refl, text_eq→≡, ◌≡◌, refl, ap, ◌∙◌, sym, Bool, true, false,
  List, [], ◌∷◌, Option, none, some, ◌&&◌, Text, codes, text_eq, ℤ, pos, Bool-cases, inl, inr,
}
use hpe_distributed_key_valu.Gossip.{
  GossipMembership, alive, find, records, entry, merge_view, do_gossip_round, pick_random_peer,
  alive_peers,
}
use hpe_distributed_key_valu.Server.{gossip_exchange}
use hpe_distributed_key_valu.Peers.{exchange_in, send_gossip_exchange, peers_agree}
use hpe_distributed_key_valu.Tests.Members.{home, peer, node, fixed_clock}
use hpe_distributed_key_valu.Store.Assoc.{assoc_segment, assoc-IsMap}
use hpe_distributed_key_valu.Server.{KvServer, Request, Response, handle, code}
use hpe_distributed_key_valu.Network.{Network, IsRpc}
use hpe_distributed_key_valu.Remote.{kv_client}
use hpe_distributed_key_valu.Distributor.{
  KvDistributor, endpoint_of, primary_of, buddy_of, get, insert,
}
use hpe_distributed_key_valu.Distributor.Routes.{IsRemote}
use hpe_distributed_key_valu.Cluster.{insert_survives_primary, get_after_remote_insert}
use hpe_distributed_key_valu.Tests.Stores.{one_entry, open_store, open_store-IsOpen, inserts}
use hpe_distributed_key_valu.Tests.Requests.{two_tokens, primary_seven, buddy_seven, seven_hits}

abbrev Entries : Type 0
Entries = List (ℤ × Text)

abbrev up : Text
up = codes "tcp://10.0.0.2:5000"

abbrev zero_clock : ℕ → ℕ
zero_clock i = 0

abbrev one_call : Bool → Request → KvServer Entries → Option Response × KvServer Entries
one_call true q s = let (s', r) = handle assoc_segment zero_clock q s in (some r, s')
one_call false q s = (none, s)

abbrev one_server : Network
one_server = record { World = KvServer Entries; call = λ ep q s. one_call (text_eq ep up) q s }

abbrev at_up : Bool → KvServer Entries → Option (KvServer Entries)
at_up true s = some s
at_up false s = none

answered_call :
    (here : Bool) (q : Request) (w s : KvServer Entries) (r : Response)
    → at_up here w ≡ some s
    → (one_call here q w).0 ≡ some r
    → (r ≡ (handle assoc_segment zero_clock q s).1)
      × (at_up here (one_call here q w).1 ≡ some (handle assoc_segment zero_clock q s).0)
answered_call true q w s r e a = (cc, cc)
answered_call false q w s r e a = (cc, cc)

call_apart :
    (here there : Bool) (q : Request) (w : KvServer Entries)
    → (here && there) ≡ false
    → at_up there (one_call here q w).1 ≡ at_up there w
call_apart true true q w h = cc
call_apart true false q w h = refl
call_apart false there q w h = refl

up_apart : (a b : Text) → text_eq a b ≡ false → (text_eq a up && text_eq b up) ≡ false
up_apart a b far = elim (Bool-cases (text_eq a up)) [
  | inr off ↦ rw off refl
  | inl on ↦ elim (Bool-cases (text_eq b up)) [
    | inr off ↦ rw (on, off) refl
    | inl both ↦
        let same : text_eq a b ≡ true =
          ap (λ x. text_eq a x) (text_eq→≡ b up both ∙ sym (text_eq→≡ a up on)) ∙ text_eq_refl a in
        absurd (cc (far, same))
  ]
]

one_server-IsRpc : IsRpc assoc_segment zero_clock one_server
one_server-IsRpc = record {
  server = λ ep w. at_up (text_eq ep up) w;
  call-answered = λ ep q w s r. answered_call (text_eq ep up) q w s r;
  call-elsewhere =
      λ ep there q w far. call_apart (text_eq ep up) (text_eq there up) q w (up_apart ep there far);
}

abbrev served : KvServer Entries
served = record { kv = open_store; membership = none }

-- Node 0, the primary of key 7, is at the first endpoint and node 1 at the second.
abbrev caller : Text → Text → KvDistributor Entries (KvServer Entries)
caller first second = record {
  count_of_node = 2;
  node_to_ip = (pos 0, first) ∷ (pos 1, second) ∷ [];
  local_node_id = pos 9;
  hash_ring = two_tokens;
  kv = open_store;
  world = served;
}

abbrev near : Text
near = codes "10.0.0.2:5000"

abbrev away : Text
away = codes "10.0.0.1:5000"

primary-IsRemote :
    (first second : Text)
    → IsRemote assoc_segment
        (kv_client one_server (codes "tcp"))
        (caller first second)
        (primary_of two_tokens (pos 7))
        first
unfolding endpoint_of
primary-IsRemote first second =
    rw primary_seven (record { valid = refl; known = refl; elsewhere = refl })

buddy-IsRemote :
    (first second : Text)
    → IsRemote assoc_segment
        (kv_client one_server (codes "tcp"))
        (caller first second)
        (buddy_of two_tokens (pos 7))
        second
unfolding endpoint_of
buddy-IsRemote first second =
    rw buddy_seven (record { valid = refl; known = refl; elsewhere = refl })

insert_survives_primary_example :
    (get assoc_segment (kv_client one_server (codes "tcp")) (pos 7) (
      insert assoc_segment
        (kv_client one_server (codes "tcp"))
        (pos 7)
        (codes "seven")
        (caller away near))).0
    ≡ codes "seven"
unfolding handle one_server-IsRpc
insert_survives_primary_example =
    insert_survives_primary assoc_segment assoc-IsMap zero_clock one_server one_server-IsRpc
      (codes "tcp") (pos 7) (codes "seven") served one_entry open_store-IsOpen refl inserts
      (caller away near) away near (primary-IsRemote away near) (buddy-IsRemote away near)
      (rw (primary_seven, buddy_seven) refl) (code 1) _ refl refl refl refl refl seven_hits

get_after_remote_insert_example :
    (get assoc_segment (kv_client one_server (codes "tcp")) (pos 7) (
      insert assoc_segment
        (kv_client one_server (codes "tcp"))
        (pos 7)
        (codes "seven")
        (caller near away))).0
    ≡ codes "seven"
unfolding handle one_server-IsRpc
get_after_remote_insert_example =
    get_after_remote_insert assoc_segment assoc-IsMap zero_clock one_server one_server-IsRpc
      (codes "tcp") (pos 7) (codes "seven") served one_entry open_store-IsOpen refl inserts
      (caller near away) near away (primary-IsRemote near away) (buddy-IsRemote near away)
      (rw (primary_seven, buddy_seven) refl) (code 1) _ refl refl refl refl seven_hits

-- Node 0 knows of the server of node 1, which knows of node 2.
abbrev asking_node : GossipMembership
asking_node = record node {
  member_table =
      (pos 0, entry home 0) ∷ (pos 1, entry (record (peer alive 4 1) { endpoint = up }) 0) ∷ [];
}

abbrev callee : GossipMembership
callee = record node {
  self_node_id = pos 1;
  member_table =
      (pos 1, entry (record (peer alive 4 1) { endpoint = up }) 0)
      ∷ (pos 2, entry (record home { node_id = pos 2 }) 0)
      ∷ [];
}

abbrev peer_server : KvServer Entries
peer_server = record served { membership = some callee }

-- Each node keeps its endpoint when it restarts.
abbrev address_of : ℤ → ℕ → Text
address_of id generation = if id ==ℤ pos 1 then up else codes "10.0.0.1:5000"

peers_agree_example :
    (one_server-IsRpc.server
        (pick_random_peer (λ n. 0) asking_node)
        (send_gossip_exchange one_server
          (pick_random_peer (λ n. 0) asking_node)
          (records asking_node.member_table)
          peer_server).1
      ≡ some (record peer_server {
        membership = some (merge_view zero_clock (records asking_node.member_table) callee).0;
      }))
    × (info
          (pos 2)
          (do_gossip_round
            (exchange_in one_server peer_server)
            (λ n. 0)
            fixed_clock
            asking_node).member_table
        ≡ info
            (pos 2)
            (merge_view zero_clock (records asking_node.member_table) callee).0.member_table)
unfolding pick_random_peer alive_peers find one_server-IsRpc
peers_agree_example =
    peers_agree assoc_segment zero_clock one_server one_server-IsRpc address_of (λ n. 0) fixed_clock
      asking_node callee peer_server peer_server
      (handle assoc_segment zero_clock (gossip_exchange (records asking_node.member_table))
        peer_server).1
      (pos 2) refl refl refl refl (refl, (refl, (refl, (refl, tt))))
      (refl, (refl, (refl, (refl, tt)))) (refl, (refl, tt)) (refl, (refl, tt)) (λ e. cc) (λ e. cc)
