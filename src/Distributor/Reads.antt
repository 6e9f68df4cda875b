-- ===== src/Distributor/Reads.antt =====
-- `get` of src/KVDistributor.cpp: what it may return.
use hpe_distributed_key_valu.Prelude.{
  ◌≡◌, refl, ◌⊎◌, inl, inr, Bool, true, false, [], Option, none, some, arith, Text, codes, ℤ, ◌==ℤ◌,
  Bool-cases,
}
use hpe_distributed_key_valu.Store.{Segment}
use hpe_distributed_key_valu.Client.{IkvClient}
use hpe_distributed_key_valu.Distributor.State.{
  KvDistributor, is_miss_or_error, primary_of, buddy_of, is_negative,
}
use hpe_distributed_key_valu.Distributor.Requests.{
  get_node_to_ip, answered, read_local, read_from_node, lazy_migrate, after_primary, get,
}

module _ (S : Segment) (C : IkvClient) where
  abbrev Dist : Type 0
  Dist = KvDistributor S.Mem C.World

  abbrev IsHit : Bool × Text × Dist → Type 0
  IsHit r = r.0 ≡ true → is_miss_or_error r.1 ≡ false

  answered-IsHit :
      (value : Text) (d : Dist) (a : Option Text × C.World) → IsHit (answered S C value d a)
  answered-IsHit value d (none, w) = λ h. cc
  answered-IsHit value d (some v, w) = λ h. ground arith

  read_local-IsHit : (key : ℤ) (d : Dist) → IsHit (read_local S C key d)
  read_local-IsHit key d = λ h. ground arith

  -- A read that hits leaves a value that is neither a miss nor an error.
  read_from_node-IsHit :
      (node key : ℤ) (value : Text) (d : Dist) → IsHit (read_from_node S C node key value d)
  unfolding read_from_node
  read_from_node-IsHit node key value d = elim (Bool-cases (is_negative node)) [
    | inl neg ↦ rw neg (λ h. cc)
    | inr ok ↦ elim (Bool-cases (node ==ℤ d.local_node_id)) [
      | inl here ↦ rw (ok, here) (read_local-IsHit key (get_node_to_ip S C node d).1)
      | inr there ↦ rw (ok, there) (answered-IsHit value (get_node_to_ip S C node d).1 _)
    ]
  ]

  abbrev IsAnswer : Text → Type 0
  IsAnswer v = (v ≡ codes "RPC Failed") ⊎ (is_miss_or_error v ≡ false)

  lazy_migrate-IsAnswer :
      (primary key : ℤ) (r : Bool × Text × Dist)
      → IsHit r
      → IsAnswer (lazy_migrate S C primary key r).0
  lazy_migrate-IsAnswer primary key (true, v, d) h = inr (h refl)
  lazy_migrate-IsAnswer primary key (false, v, d) h = inl refl

  after_primary-IsAnswer :
      (primary buddy key : ℤ) (r : Bool × Text × Dist)
      → IsHit r
      → IsAnswer (after_primary S C primary buddy key r).0
  after_primary-IsAnswer primary buddy key (true, v, d) h = inr (h refl)
  after_primary-IsAnswer primary buddy key (false, v, d) h = elim (Bool-cases (buddy ==ℤ primary)) [
    | inl one ↦ rw one (inl refl)
    | inr two ↦ rw two (
        lazy_migrate-IsAnswer primary key (read_from_node S C buddy key v d)
          (read_from_node-IsHit buddy key v d))
  ]

  -- Whatever the nodes answer, `get` returns "RPC Failed" or a text that is neither one of the
  -- store's two miss texts nor one that begins like an error.
  pub get-IsAnswer :
      (key : ℤ) (d : Dist)
      → ((get S C key d).0 ≡ codes "RPC Failed") ⊎ (is_miss_or_error (get S C key d).0 ≡ false)
  unfolding get
  get-IsAnswer key d =
      after_primary-IsAnswer (primary_of d.hash_ring key) (buddy_of d.hash_ring key) key
        (read_from_node S C (primary_of d.hash_ring key) key [] d)
        (read_from_node-IsHit (primary_of d.hash_ring key) key [] d)
