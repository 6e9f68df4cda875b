-- ===== src/Distributor/Undone.antt =====
-- `get` of src/KVDistributor.cpp where this process is the primary of the key and does not have it.
use hpe_distributed_key_valu.Prelude.{
  ◌≡◌, ap, ◌∙◌, true, false, not, [], none, some, Text, codes, ℤ, ◌==ℤ◌, refl, if◌then◌else◌,
  ==ℤ_refl,
}
use hpe_distributed_key_valu.Store
use hpe_distributed_key_valu.Store.{Segment, IsMap, deleted}
use hpe_distributed_key_valu.Store.Effects.{IsOpen}
use hpe_distributed_key_valu.Store.Reads.{find_after_delete}
use hpe_distributed_key_valu.Client.{IkvClient}
use hpe_distributed_key_valu.Distributor.State.{
  is_miss_or_error, endpoint_of, primary_of, buddy_of, insert_op,
}
use hpe_distributed_key_valu.Distributor.Requests.{
  lazy_migrate, answered, get, delete_key, delete_on_node, write_local,
}
use hpe_distributed_key_valu.Distributor.Routes.{
  Dist, IsHere, IsRemote, get_node_to_ip-known, read-IsHere, write-IsHere, delete-IsHere,
  delete-IsRemote,
}
use hpe_distributed_key_valu.Distributor.Failover.{get-asks_buddy, migrate-hit}

is_missing : {v : Text} → v ≡ codes "key not found" → is_miss_or_error v ≡ true
unfolding is_miss_or_error
is_missing e = rw e refl

if_same : (key : ℤ) (a b : Text) {v : Text} → v ≡ (if key ==ℤ key then a else b) → v ≡ a
if_same key a b e = e ∙ rw (==ℤ_refl key) refl

module _ (S : Segment) (C : IkvClient) where
  module _ (key : ℤ) (d : Dist S C) (home be : Text)
      (here : IsHere S C d (primary_of d.hash_ring key))
      (known : endpoint_of (primary_of d.hash_ring key) d.node_to_ip ≡ some home)
      (buddy : IsRemote S C d (buddy_of d.hash_ring key) be)
      (other : (buddy_of d.hash_ring key ==ℤ primary_of d.hash_ring key) ≡ false) where
    -- This process is the primary of the key, and its store has no value for it; the buddy, another
    -- node, has one: `get` returns that value and inserts it in the store of this process.
    pub get_migrates_home :
        is_miss_or_error (Store.find_value S key d.kv) ≡ true
        → (v : Text) (w : C.World) → C.fetch key be d.world ≡ (some v, w)
        → is_miss_or_error v ≡ false
        → get S C key d ≡ (v, record d { world = w; kv = (Store.insert S key v d.kv).0 })
    get_migrates_home miss v w found hit =
        let p = primary_of d.hash_ring key in
        let r = read-IsHere S C p key [] d here in
        let at = get_node_to_ip-known S C p home d known in
        let d' = record d { world = w } in
        get-asks_buddy S C key d be buddy other (Store.find_value S key d.kv) d.world
          (ap (λ x. x.0) r ∙ ap not miss) (ap (λ x. x.1) r) (ap (λ x. x.2) r ∙ ap (λ x. x.1) at)
        ∙ ap (λ b. lazy_migrate S C p key (answered S C (Store.find_value S key d.kv) d b)) found
        ∙ migrate-hit S C p key (Store.find_value S key d.kv) v d w hit
        ∙ ap (λ x. (v, x))
            (write-IsHere S C p key v insert_op d' (record { valid = here.valid; same = here.same })
              ∙ ap (λ x. record x.1 { kv = write_local S C insert_op key v d.kv })
                  (get_node_to_ip-known S C p home d' known))

    -- The request at both nodes leaves the two results and nothing else.
    delete_both :
        delete_key S C key d
        ≡ record d { kv = (Store.delete S key d.kv).0; world = C.delete_key key be d.world }
    unfolding delete_key
    delete_both =
        let p = primary_of d.hash_ring key in
        let b = buddy_of d.hash_ring key in
        let d' = record d { kv = (Store.delete S key d.kv).0 } in
        let first : delete_on_node S C p key d ≡ d' =
          delete-IsHere S C p key d here
          ∙ ap (λ x. record x.1 { kv = (Store.delete S key d.kv).0 })
              (get_node_to_ip-known S C p home d known) in
        rw other (
          ap (delete_on_node S C b key) first
          ∙ delete-IsRemote S C b key be d'
              (record { valid = buddy.valid; known = buddy.known; elsewhere = buddy.elsewhere }))

  module _ (laws : IsMap S) (key : ℤ) (d : Dist S C) (home be : Text) (m : S.Mem)
      (here : IsHere S C d (primary_of d.hash_ring key))
      (known : endpoint_of (primary_of d.hash_ring key) d.node_to_ip ≡ some home)
      (buddy : IsRemote S C d (buddy_of d.hash_ring key) be)
      (other : (buddy_of d.hash_ring key ==ℤ primary_of d.hash_ring key) ≡ false)
      (o : IsOpen d.kv m) (free : S.lock m ≡ none) where
    -- This process is the primary of the key, another node the buddy, and the store of this process
    -- reports that the delete was done. If the buddy still answers a fetch of the key with a value,
    -- as it does when the delete did not reach it, then `get` returns that value, and the store of
    -- this process is given it again by `Insert`.
    pub get_after_lost_delete :
        (Store.delete S key d.kv).1 ≡ deleted
        → (v : Text) (w : C.World) → C.fetch key be (C.delete_key key be d.world) ≡ (some v, w)
        → is_miss_or_error v ≡ false
        → get S C key (delete_key S C key d)
          ≡ (v, record d { world = w; kv = (Store.insert S key v (Store.delete S key d.kv).0).0 })
    get_after_lost_delete gone v w found hit =
        let d' = record d {
          kv = (Store.delete S key d.kv).0;
          world = C.delete_key key be d.world;
        } in
        ap (get S C key) (delete_both key d home be here known buddy other)
        ∙ get_migrates_home key d' home be (record { valid = here.valid; same = here.same }) known
            (record { valid = buddy.valid; known = buddy.known; elsewhere = buddy.elsewhere }) other
            (is_missing (if_same key _ _ (find_after_delete S laws key [] d.kv m o free key gone)))
            v w found hit
