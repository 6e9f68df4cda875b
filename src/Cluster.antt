-- ===== src/Cluster.antt =====
-- The distributor of src/KVDistributor.cpp over the client of src/KVClient.cpp and the servers of
-- src/KVServer.cpp: a write that the nodes of a key have taken, and a later `get`, for a process that
-- is neither of these nodes.
use hpe_distributed_key_valu.Prelude.{
  ℕ, ◌≡◌, refl, ap, ◌∙◌, true, false, [], none, some, Text, c_str, text_eq, ℤ, ◌==ℤ◌, ==ℤ_refl,
}
use hpe_distributed_key_valu.Store
use hpe_distributed_key_valu.Store.{Segment, IsMap, inserted}
use hpe_distributed_key_valu.Store.Effects.{IsOpen}
use hpe_distributed_key_valu.Store.Reads.{find_after_insert}
use hpe_distributed_key_valu.Server.{KvServer, Response, kv_fetch, kv_insert, handle}
use hpe_distributed_key_valu.Network.{Network, IsRpc}
use hpe_distributed_key_valu.Remote.{kv_client, full_ep, as_text}
use hpe_distributed_key_valu.Distributor.{
  is_miss_or_error, primary_of, buddy_of, answered, get, insert, write_to_node, insert_op,
  after_primary,
}
use hpe_distributed_key_valu.Distributor.Routes.{Dist, IsRemote, read-IsRemote, write-IsRemote}
use hpe_distributed_key_valu.Distributor.Failover.{get_fails_over, is_no_value}

module _ (S : Segment) (laws : IsMap S) (clock : ℕ → ℕ) (N : Network) (rpc : IsRpc S clock N)
    (protocol : Text) where
  abbrev full : Text → Text
  full = full_ep protocol

  module _ (key : ℤ) (value : Text) (s : KvServer S.Mem) (m : S.Mem) (o : IsOpen s.kv m)
      (free : S.lock m ≡ none) (goes : (Store.insert S key value s.kv).1 ≡ inserted) where
    -- The server after it has taken the insert.
    abbrev taken : KvServer S.Mem
    taken = record s { kv = (Store.insert S key value s.kv).0 }

    insert_call :
        (ep : Text) (w : N.World) (r : Response)
        → rpc.server ep w ≡ some s
        → (N.call ep (kv_insert key value) w).0 ≡ some r
        → rpc.server ep (N.call ep (kv_insert key value) w).1 ≡ some taken
    unfolding handle
    insert_call ep w r at_ep got = (rpc.call-answered ep (kv_insert key value) w s r at_ep got).1

    find_taken : Store.find_value S key taken.kv ≡ c_str value
    find_taken = find_after_insert S laws key value s.kv m o free key goes ∙ rw (==ℤ_refl key) refl

    fetch_call :
        (ep : Text) (w : N.World) (r : Response)
        → rpc.server ep w ≡ some taken
        → (N.call ep (kv_fetch key) w).0 ≡ some r
        → as_text (N.call ep (kv_fetch key) w).0 ≡ some (c_str value)
    unfolding handle
    fetch_call ep w r at_ep got =
        ap as_text got
        ∙ ap (λ x. as_text (some x)) (rpc.call-answered ep (kv_fetch key) w taken r at_ep got).0
        ∙ ap some find_taken

    module _ (d : Dist S (kv_client N protocol)) (pe be : Text)
        (primary : IsRemote S (kv_client N protocol) d (primary_of d.hash_ring key) pe)
        (buddy : IsRemote S (kv_client N protocol) d (buddy_of d.hash_ring key) be)
        (other : (buddy_of d.hash_ring key ==ℤ primary_of d.hash_ring key) ≡ false) where
      -- The world after the insert at the primary, and after that at the buddy.
      abbrev one_insert : N.World
      one_insert = (N.call (full pe) (kv_insert key value) d.world).1

      abbrev two_inserts : N.World
      two_inserts = (N.call (full be) (kv_insert key value) one_insert).1

      -- The world after the read of the primary that follows.
      abbrev one_fetch : N.World
      one_fetch = (N.call (full pe) (kv_fetch key) two_inserts).1

      insert_both : insert S (kv_client N protocol) key value d ≡ record d { world = two_inserts }
      unfolding insert
      insert_both =
          let C = kv_client N protocol in
          let d' = record d { world = one_insert } in
          rw other (
            ap (write_to_node S C (buddy_of d.hash_ring key) key value insert_op)
              (write-IsRemote S C (primary_of d.hash_ring key) key pe value insert_op d primary)
            ∙ write-IsRemote S C (buddy_of d.hash_ring key) key be value insert_op d'
                (record { valid = buddy.valid; known = buddy.known; elsewhere = buddy.elsewhere }))

      -- Two other nodes, at endpoints `pe` and `be`, are the primary and the buddy of the key, and
      -- the store of the buddy can take the insert. When the buddy has answered the insert, whether
      -- or not the primary has, and the primary then does not answer a fetch, or has no value, `get`
      -- returns the text up to its first NUL byte, if the buddy answers the fetch and if
      -- `isMissOrError` does not hold of that text.
      pub insert_survives_primary :
          (r r' : Response)
          → text_eq (full pe) (full be) ≡ false
          → rpc.server (full be) d.world ≡ some s
          → (N.call (full be) (kv_insert key value) one_insert).0 ≡ some r
          → is_no_value (as_text (N.call (full pe) (kv_fetch key) two_inserts).0) ≡ true
          → (N.call (full be) (kv_fetch key) one_fetch).0 ≡ some r'
          → is_miss_or_error (c_str value) ≡ false
          → (get S (kv_client N protocol) key (insert S (kv_client N protocol) key value d)).0
            ≡ c_str value
      insert_survives_primary r r' far at_be got down got' readable =
          let C = kv_client N protocol in
          let d' = record d { world = two_inserts } in
          let before : rpc.server (full be) one_insert ≡ some s =
            rpc.call-elsewhere (full pe) (full be) (kv_insert key value) d.world far ∙ at_be in
          let after : rpc.server (full be) one_fetch ≡ some taken =
            rpc.call-elsewhere (full pe) (full be) (kv_fetch key) two_inserts far
            ∙ insert_call (full be) one_insert r before got in
          let found = fetch_call (full be) one_fetch r' after got' in
          ap (λ e. (get S C key e).0) insert_both
          ∙ ap (λ x. x.0)
              (get_fails_over S C key d' be
                (record { valid = buddy.valid; known = buddy.known; elsewhere = buddy.elsewhere })
                other pe
                (record {
                  valid = primary.valid;
                  known = primary.known;
                  elsewhere = primary.elsewhere;
                })
                down (c_str value) (N.call (full be) (kv_fetch key) one_fetch).1
                (ap (λ t. (t, (N.call (full be) (kv_fetch key) one_fetch).1)) found) readable)

      -- Two other nodes are the primary and the buddy of the key, and the store of the primary can
      -- take the insert. When the primary has answered the insert, whatever becomes of the one at the
      -- buddy, `get` returns the text up to its first NUL byte, if the primary answers the fetch and
      -- if `isMissOrError` does not hold of that text.
      pub get_after_remote_insert :
          (r r' : Response)
          → text_eq (full be) (full pe) ≡ false
          → rpc.server (full pe) d.world ≡ some s
          → (N.call (full pe) (kv_insert key value) d.world).0 ≡ some r
          → (N.call (full pe) (kv_fetch key) two_inserts).0 ≡ some r'
          → is_miss_or_error (c_str value) ≡ false
          → (get S (kv_client N protocol) key (insert S (kv_client N protocol) key value d)).0
            ≡ c_str value
      unfolding get
      get_after_remote_insert r r' far at_pe got got' readable =
          let C = kv_client N protocol in
          let p = primary_of d.hash_ring key in
          let d' = record d { world = two_inserts } in
          let taken_at : rpc.server (full pe) two_inserts ≡ some taken =
            rpc.call-elsewhere (full be) (full pe) (kv_insert key value) one_insert far
            ∙ insert_call (full pe) d.world r at_pe got in
          let found = fetch_call (full pe) two_inserts r' taken_at got' in
          ap (λ e. (get S C key e).0) insert_both
          ∙ ap (λ x. (after_primary S C p (buddy_of d.hash_ring key) key x).0)
              (read-IsRemote S C p key pe [] d' (record {
                valid = primary.valid;
                known = primary.known;
                elsewhere = primary.elsewhere;
              })
                ∙ ap (λ t. answered S C [] d' (t, one_fetch)) found)
          ∙ rw readable refl
