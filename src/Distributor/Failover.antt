-- ===== src/Distributor/Failover.antt =====
-- `get` of src/KVDistributor.cpp when the primary does not have the key: failover to the buddy, and
-- the write that restores the primary.
use hpe_distributed_key_valu.Prelude.{
  ◌≡◌, ap, ◌∙◌, Bool, true, false, not, [], Option, none, some, Text, codes, ℤ, ◌==ℤ◌, refl,
}
use hpe_distributed_key_valu.Store.{Segment}
use hpe_distributed_key_valu.Client.{IkvClient}
use hpe_distributed_key_valu.Distributor.State.{is_miss_or_error, primary_of, buddy_of, insert_op}
use hpe_distributed_key_valu.Distributor.Requests.{
  read_from_node, write_to_node, answered, lazy_migrate, after_primary, get,
}
use hpe_distributed_key_valu.Distributor.Routes.{Dist, IsRemote, read-IsRemote, write-IsRemote}

-- The answer of a node that does not have the key: an exception, or a text for a miss or an error.
abbrev pub is_no_value : Option Text → Bool
is_no_value none = true
is_no_value (some v) = is_miss_or_error v

module _ (S : Segment) (C : IkvClient) where
  answered-no_value :
      (d : Dist S C) (a : Option Text × C.World)
      → is_no_value a.0 ≡ true
      → (answered S C [] d a).0 ≡ false
  answered-no_value d (none, w) h = refl
  answered-no_value d (some v, w) h = ap not h

  answered-world :
      (value : Text) (d : Dist S C) (a : Option Text × C.World)
      → (answered S C value d a).2 ≡ record d { world = a.1 }
  answered-world value d (none, w) = refl
  answered-world value d (some v, w) = refl

  after_miss :
      (primary buddy key : ℤ) (r : Bool × Text × Dist S C)
      → r.0 ≡ false
      → (buddy ==ℤ primary) ≡ false
      → after_primary S C primary buddy key r
        ≡ lazy_migrate S C primary key (read_from_node S C buddy key r.1 r.2)
  after_miss primary buddy key (false, v, d) h other = rw other refl
  after_miss primary buddy key (true, v, d) h other = cc

  -- When `get` finds no value at the primary, it asks the buddy, another node: this is the read of
  -- the buddy on the state that the first read left, and what follows it.
  pub get-miss :
      (key : ℤ) (d : Dist S C)
      → (buddy_of d.hash_ring key ==ℤ primary_of d.hash_ring key) ≡ false
      → let r = read_from_node S C (primary_of d.hash_ring key) key [] d in
        r.0 ≡ false
        → get S C key d
          ≡ lazy_migrate S C
              (primary_of d.hash_ring key)
              key
              (read_from_node S C (buddy_of d.hash_ring key) key r.1 r.2)
  unfolding get
  get-miss key d other miss =
      after_miss (primary_of d.hash_ring key) (buddy_of d.hash_ring key) key
        (read_from_node S C (primary_of d.hash_ring key) key [] d) miss other

  pub migrate-hit :
      (primary key : ℤ) (value v : Text) (d : Dist S C) (w : C.World)
      → is_miss_or_error v ≡ false
      → lazy_migrate S C primary key (answered S C value d (some v, w))
        ≡ (v, write_to_node S C primary key v insert_op (record d { world = w }))
  migrate-hit primary key value v d w hit = rw hit refl

  migrate-miss :
      (primary key : ℤ) (value : Text) (d : Dist S C) (a : Option Text × C.World)
      → is_no_value a.0 ≡ true
      → lazy_migrate S C primary key (answered S C value d a)
        ≡ (codes "RPC Failed", record d { world = a.1 })
  migrate-miss primary key value d (none, w) h = refl
  migrate-miss primary key value d (some v, w) h = rw h refl

  IsRemote-world :
      (d : Dist S C) (node : ℤ) (ep : Text) (w : C.World)
      → IsRemote S C d node ep
      → IsRemote S C (record d { world = w }) node ep
  IsRemote-world d node ep w h = record {
    valid = h.valid;
    known = h.known;
    elsewhere = h.elsewhere;
  }

  module _ (key : ℤ) (d : Dist S C) (be : Text)
      (buddy : IsRemote S C d (buddy_of d.hash_ring key) be)
      (other : (buddy_of d.hash_ring key ==ℤ primary_of d.hash_ring key) ≡ false) where
    -- The read of the buddy, after a read of the primary that only reached out to it.
    pub get-asks_buddy :
        (value : Text) (w : C.World)
        → let r = read_from_node S C (primary_of d.hash_ring key) key [] d in
          r.0 ≡ false
          → r.1 ≡ value
          → r.2 ≡ record d { world = w }
          → get S C key d
            ≡ lazy_migrate S C
                (primary_of d.hash_ring key)
                key
                (answered S C value (record d { world = w }) (C.fetch key be w))
    get-asks_buddy value w miss left state =
        get-miss key d other miss
        ∙ rw (left, state)
            (ap (lazy_migrate S C (primary_of d.hash_ring key) key) (
              read-IsRemote S C (buddy_of d.hash_ring key) key be value (record d { world = w })
                (IsRemote-world d (buddy_of d.hash_ring key) be w buddy)))

    module _ (pe : Text) (primary : IsRemote S C d (primary_of d.hash_ring key) pe) where
      get-two_reads :
          is_no_value (C.fetch key pe d.world).0 ≡ true
          → let w = (C.fetch key pe d.world).1 in
            get S C key d
            ≡ lazy_migrate S C (primary_of d.hash_ring key) key (
                answered S C
                  (answered S C [] d (C.fetch key pe d.world)).1
                  (record d { world = w })
                  (C.fetch key be w))
      get-two_reads miss =
          let a = C.fetch key pe d.world in
          let first = read-IsRemote S C (primary_of d.hash_ring key) key pe [] d primary in
          get-asks_buddy (answered S C [] d a).1 a.1
            (ap (λ r. r.0) first ∙ answered-no_value d a miss) (ap (λ r. r.1) first)
            (ap (λ r. r.2) first ∙ answered-world [] d a)

      -- Two other nodes are the primary and the buddy of the key. The primary answers with no value,
      -- the buddy with one: `get` returns that value, and has sent the two fetches and one more
      -- request, the insert of the value at the primary.
      pub get_fails_over :
          is_no_value (C.fetch key pe d.world).0 ≡ true
          → (v : Text) (w : C.World) → C.fetch key be (C.fetch key pe d.world).1 ≡ (some v, w)
          → is_miss_or_error v ≡ false
          → get S C key d ≡ (v, record d { world = C.insert key v pe w })
      get_fails_over miss v w found hit =
          let a = C.fetch key pe d.world in
          let p = primary_of d.hash_ring key in
          get-two_reads miss
          ∙ ap
              (λ b.
                lazy_migrate S C p key
                  (answered S C (answered S C [] d a).1 (record d { world = a.1 }) b))
              found
          ∙ migrate-hit p key (answered S C [] d a).1 v (record d { world = a.1 }) w hit
          ∙ ap (λ x. (v, x))
              (write-IsRemote S C p key pe v insert_op (record d { world = w })
                (IsRemote-world d p pe w primary))

      -- Two other nodes are the primary and the buddy of the key, and neither answers with a value:
      -- `get` returns "RPC Failed", and has sent the two fetches and nothing else.
      pub get_fails :
          is_no_value (C.fetch key pe d.world).0 ≡ true
          → is_no_value (C.fetch key be (C.fetch key pe d.world).1).0 ≡ true
          → get S C key d ≡ (
            codes "RPC Failed",
            record d { world = (C.fetch key be (C.fetch key pe d.world).1).1 },
          )
      get_fails miss none_there =
          let a = C.fetch key pe d.world in
          get-two_reads miss
          ∙ migrate-miss (primary_of d.hash_ring key) key (answered S C [] d a).1
              (record d { world = a.1 }) (C.fetch key be a.1) none_there
