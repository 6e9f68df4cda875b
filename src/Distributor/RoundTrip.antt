-- ===== src/Distributor/RoundTrip.antt =====
-- A key whose primary is this process: `get` of src/KVDistributor.cpp after `insert`, `update` and
-- `deleteKey`.
use hpe_distributed_key_valu.Prelude.{
  ◌≡◌, ap, ◌∙◌, true, false, [], none, arith, Text, c_str, ℤ, ◌==ℤ◌, ==ℤ_iff, ==ℤ_refl, refl,
  Bool-cases, inl, inr, if◌then◌else◌,
}
use hpe_distributed_key_valu.Store
use hpe_distributed_key_valu.Store.{Segment, IsMap, KvStore, inserted, updated, deleted}
use hpe_distributed_key_valu.Store.Effects.{IsOpen}
use hpe_distributed_key_valu.Store.Reads.{find_after_insert, find_after_update}
use hpe_distributed_key_valu.Client.{IkvClient}
use hpe_distributed_key_valu.Distributor.State.{
  insert_op, update_op, is_miss_or_error, is_negative, primary_of, buddy_of,
}
use hpe_distributed_key_valu.Distributor.Requests.{
  get_node_to_ip, write_to_node, after_primary, get, to_both, insert, update,
}
use hpe_distributed_key_valu.Distributor.Routes.{
  Dist, IsFrame, IsHere, get_node_to_ip-IsFrame, write-IsFrame, read-IsHere, write-IsHere,
}

other_than : (b p l : ℤ) → (p ==ℤ l) ≡ true → (b ==ℤ p) ≡ false → (b ==ℤ l) ≡ false
other_than b p l here other = ground (arith, ==ℤ_iff b p, ==ℤ_iff p l, ==ℤ_iff b l)

module _ (S : Segment) (C : IkvClient) where
  -- A read that hits in the store of this process ends `get`.
  get-IsHere :
      (key : ℤ) (d : Dist S C)
      → IsHere S C d (primary_of d.hash_ring key)
      → is_miss_or_error (Store.find_value S key d.kv) ≡ false
      → (get S C key d).0 ≡ Store.find_value S key d.kv
  unfolding get
  get-IsHere key d h hit =
      let p = primary_of d.hash_ring key in
      ap (λ r. (after_primary S C p (buddy_of d.hash_ring key) key r).0)
        (read-IsHere S C p key [] d h)
      ∙ rw hit refl

  -- A request that goes to both nodes of a key whose primary is this process.
  module _ (request : ℤ → Dist S C → Dist S C) (key : ℤ) (d : Dist S C) (kv' : KvStore S.Mem)
      (here : IsHere S C d (primary_of d.hash_ring key))
      (at_home : request (primary_of d.hash_ring key) d
        ≡ record (get_node_to_ip S C (primary_of d.hash_ring key) d).1 { kv = kv' })
      (away : (node : ℤ) (e : Dist S C)
        → (node ==ℤ e.local_node_id) ≡ false
        → IsFrame S C e (request node e)) where
    record HasStore (e : Dist S C) : Type 0 where
      ring : e.hash_ring ≡ d.hash_ring
      local : e.local_node_id ≡ d.local_node_id
      store : e.kv ≡ kv'

    at_primary : HasStore (request (primary_of d.hash_ring key) d)
    at_primary =
        let f = get_node_to_ip-IsFrame S C (primary_of d.hash_ring key) d in
        rw at_home (record { ring = f.ring; local = f.here; store = refl })

    buddy_away :
        (buddy_of d.hash_ring key ==ℤ primary_of d.hash_ring key) ≡ false
        → (buddy_of d.hash_ring key ==ℤ (request (primary_of d.hash_ring key) d).local_node_id)
          ≡ false
    buddy_away other =
        ap (λ l. buddy_of d.hash_ring key ==ℤ l) at_primary.local
        ∙ other_than (buddy_of d.hash_ring key) (primary_of d.hash_ring key) d.local_node_id
            here.same other

    to_both-HasStore : HasStore (to_both S C request key d)
    to_both-HasStore =
        let b = buddy_of d.hash_ring key in
        let p = primary_of d.hash_ring key in
        elim (Bool-cases (b ==ℤ p)) [
          | inl one ↦ rw one at_primary
          | inr two ↦
              let f = away b (request p d) (buddy_away two) in
              rw two (record {
                ring = f.ring ∙ at_primary.ring;
                local = f.here ∙ at_primary.local;
                store = f.store ∙ at_primary.store;
              })
        ]

    -- The store of this process has seen the request once, and a read of the key that hits in it is
    -- the answer of `get`.
    get-after_request :
        (v : Text)
        → Store.find_value S key kv' ≡ v
        → is_miss_or_error v ≡ false
        → (get S C key (to_both S C request key d)).0 ≡ v
    get-after_request v found hit =
        let e = to_both S C request key d in
        let h = to_both-HasStore in
        let look = ap (Store.find_value S key) h.store ∙ found in
        get-IsHere key e
          (record {
            valid = ap (λ r. is_negative (primary_of r key)) h.ring ∙ here.valid;
            same =
                ap (λ r. primary_of r key ==ℤ e.local_node_id) h.ring
                ∙ ap (λ l. primary_of d.hash_ring key ==ℤ l) h.local
                ∙ here.same;
          })
          (ap is_miss_or_error look ∙ hit)
        ∙ look

  module _ (laws : IsMap S) (key : ℤ) (value : Text) (d : Dist S C) (m : S.Mem)
      (here : IsHere S C d (primary_of d.hash_ring key)) (o : IsOpen d.kv m)
      (free : S.lock m ≡ none) (readable : is_miss_or_error (c_str value) ≡ false) where
    at_key : (a b : Text) → (if key ==ℤ key then a else b) ≡ a
    at_key a b = rw (==ℤ_refl key) refl

    -- This process is the primary of the key, and its store is open with a mutex that can be taken.
    -- When its store reports that the insert was done, `get` gives the text up to its first NUL
    -- byte, whatever the other nodes do, if `isMissOrError` does not hold of that text.
    pub get_after_insert :
        (Store.insert S key value d.kv).1 ≡ inserted
        → (get S C key (insert S C key value d)).0 ≡ c_str value
    unfolding insert
    get_after_insert w =
        let p = primary_of d.hash_ring key in
        get-after_request (λ n. write_to_node S C n key value insert_op) key d
          (Store.insert S key value d.kv).0 here (write-IsHere S C p key value insert_op d here)
          (λ n e. write-IsFrame S C n key value insert_op e) (c_str value)
          (find_after_insert S laws key value d.kv m o free key w ∙ at_key _ _) readable

    -- This process is the primary of the key, and its store is open with a mutex that can be taken.
    -- When its store reports that the update was done, `get` gives the new text up to its first NUL
    -- byte, whatever the other nodes do, if `isMissOrError` does not hold of that text.
    pub get_after_update :
        (Store.update S key value d.kv).1 ≡ updated
        → (get S C key (update S C key value d)).0 ≡ c_str value
    unfolding update
    get_after_update w =
        let p = primary_of d.hash_ring key in
        get-after_request (λ n. write_to_node S C n key value update_op) key d
          (Store.update S key value d.kv).0 here (write-IsHere S C p key value update_op d here)
          (λ n e. write-IsFrame S C n key value update_op e) (c_str value)
          (find_after_update S laws key value d.kv m o free key w ∙ at_key _ _) readable
