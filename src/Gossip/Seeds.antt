-- ===== src/Gossip/Seeds.antt =====
-- The loop of `start` in src/GossipMembership.cpp over the answer of a seed, which does not compare
-- what it is told with what the table has.
use mathlib.Core.Path.{subst}
use hpe_distributed_key_valu.Prelude.{
  ℕ, suc, ◌≡◌, refl, sym, ap, ◌∙◌, true, false, List, [], ◌∷◌, some, arith, All, if◌then◌else◌,
  if_all, ℤ, ◌==ℤ◌, ==ℤ_iff, Bool-cases, ◌⊎◌, inl, inr,
}
use hpe_distributed_key_valu.Gossip.State.{
  MemberRecord, MemberEntry, MemberTable, find, put, records,
}
use hpe_distributed_key_valu.Gossip.Merge.{entry}
use hpe_distributed_key_valu.Gossip.Rounds.{touch, seed_merge}
use hpe_distributed_key_valu.Gossip.Table.{find-put}
use hpe_distributed_key_valu.Gossip.Versions.{Version, version, version_of, known}
use hpe_distributed_key_valu.Gossip.Shape.{IsTable, put-IsTable}
use hpe_distributed_key_valu.Gossip.Self.{own}
use hpe_distributed_key_valu.Gossip.Rumours.{Reached, Cluster, IsSound, Change}

some_version : {x y : Version} → some x ≡ some y → x ≡ y
some_version q = cc

-- One record of the answer.
abbrev seeded : ℤ → ℕ → MemberRecord → MemberTable → MemberTable
seeded self now r t =
    if r.node_id ==ℤ self then touch r.node_id t else put r.node_id (entry r now) t

touch-found :
    (id self : ℤ) (e : MemberEntry) (t : MemberTable)
    → id ≡ self
    → find self t ≡ some e
    → touch id t ≡ t
touch-found id self e t same found = rw (same, touch, found) refl

-- A node that has an entry of its own keeps it.
module _ (self : ℤ) (e : MemberEntry) where
  seeded-own :
      (now : ℕ) (r : MemberRecord) (t : MemberTable)
      → find self t ≡ some e
      → find self (seeded self now r t) ≡ some e
  seeded-own now r t found =
      if_all (λ u. find self u ≡ some e) (r.node_id ==ℤ self)
        (λ on. ap (find self) (touch-found r.node_id self e t ((==ℤ_iff _ _).0 on) found) ∙ found)
        (λ off. find-put r.node_id self (entry r now) t ∙ (rw off found))

  seed_merge-own :
      (clock : ℕ → ℕ) (rs : List MemberRecord) (t : MemberTable)
      → find self t ≡ some e
      → find self (seed_merge self clock rs t) ≡ some e
  unfolding seed_merge
  seed_merge-own clock [] t found = found
  seed_merge-own clock (r ∷ rs) t found =
      seed_merge-own (λ i. clock (suc i)) rs (seeded self (clock 0) r t)
        (seeded-own (clock 0) r t found)

  seed_merge-IsTable :
      (clock : ℕ → ℕ) (rs : List MemberRecord) (t : MemberTable)
      → find self t ≡ some e
      → IsTable t
      → IsTable (seed_merge self clock rs t)
  unfolding seed_merge
  seed_merge-IsTable clock [] t found shape = shape
  seed_merge-IsTable clock (r ∷ rs) t found shape =
      seed_merge-IsTable (λ i. clock (suc i)) rs (seeded self (clock 0) r t)
        (seeded-own (clock 0) r t found)
        (if_all IsTable (r.node_id ==ℤ self)
          (λ on.
            subst IsTable (sym (touch-found r.node_id self e t ((==ℤ_iff _ _).0 on) found)) shape)
          (λ off. put-IsTable r.node_id (entry r (clock 0)) t refl shape))

  -- What holds of every version that the table has of a node, and of those that the answer has of it,
  -- holds of those that the table has then.
  module _ {κ} (P : Version → Type κ) (id : ℤ) where
    abbrev Says : MemberTable → Type κ
    Says t = (v : Version) → known id t ≡ some v → P v

    seeded-Says :
        (now : ℕ) (r : MemberRecord) (t : MemberTable)
        → find self t ≡ some e
        → (r.node_id ≡ id → P (version r))
        → Says t
        → Says (seeded self now r t)
    seeded-Says now r t found h before =
        if_all Says (r.node_id ==ℤ self)
          (λ on.
            subst Says (sym (touch-found r.node_id self e t ((==ℤ_iff _ _).0 on) found)) before)
          (λ off. written (Bool-cases (r.node_id ==ℤ id)))
      where
        when_same :
            (r.node_id ==ℤ id) ≡ true
            → (if r.node_id ==ℤ id then some (entry r now) else find id t) ≡ some (entry r now)
        when_same same = rw same refl

        when_other :
            (r.node_id ==ℤ id) ≡ false
            → (if r.node_id ==ℤ id then some (entry r now) else find id t) ≡ find id t
        when_other other = rw other refl

        written :
            ((r.node_id ==ℤ id) ≡ true) ⊎ ((r.node_id ==ℤ id) ≡ false)
            → Says (put r.node_id (entry r now) t)
        written (inl same) v k =
            subst P
              (some_version
                (sym (ap version_of (find-put r.node_id id (entry r now) t ∙ when_same same)) ∙ k))
              (h ((==ℤ_iff _ _).0 same))
        written (inr other) v k =
            before v
              (sym (ap version_of (find-put r.node_id id (entry r now) t ∙ when_other other)) ∙ k)

    seed_merge-Says :
        (clock : ℕ → ℕ) (rs : List MemberRecord) (t : MemberTable)
        → find self t ≡ some e
        → All (λ r. r.node_id ≡ id → P (version r)) rs
        → Says t
        → Says (seed_merge self clock rs t)
    unfolding seed_merge
    seed_merge-Says clock [] t found h before = before
    seed_merge-Says clock (r ∷ rs) t found h before =
        seed_merge-Says (λ i. clock (suc i)) rs (seeded self (clock 0) r t)
          (seeded-own (clock 0) r t found) h.1 (seeded-Says (clock 0) r t found h.0 before)

    -- What a table sends says of a node what the table says of it.
    records-Says :
        (t : MemberTable)
        → IsTable t
        → Says t
        → All (λ r. r.node_id ≡ id → P (version r)) (records t)
    unfolding find
    records-Says [] shape h = tt
    records-Says ((k, d) ∷ t) shape h = (
      λ same. h (version d.info) (rw ((==ℤ_iff k id).1 (sym shape.0 ∙ same)) refl),
      records-Says t shape.1.1 (λ v kn. h v (ground (arith, ==ℤ_iff k id, shape.1.0, kn))),
    )

-- A node that takes the answer of a seed, whose table says nothing that is not reached, and has an
-- entry of its own.
pub seed-Change :
    (c : Cluster) (s : IsSound c) (i : ℤ) (t : MemberTable) (e : MemberEntry)
    → IsTable t
    → ((id : ℤ) (v : Version) → known id t ≡ some v → Reached (known id (c id).member_table) v)
    → own (c i) ≡ some e
    → (clock : ℕ → ℕ)
    → Change c i (record (c i) {
      member_table = seed_merge (c i).self_node_id clock (records t) (c i).member_table;
    })
seed-Change c s i t e shape heard mine clock = record {
  named = s.named i;
  shaped =
      seed_merge-IsTable (c i).self_node_id e clock (records t) (c i).member_table mine
        (s.shaped i);
  heard = λ id ne.
      seed_merge-Says (c i).self_node_id e (Reached (known id (c id).member_table)) id clock
        (records t) (c i).member_table mine
        (records-Says (c i).self_node_id e (Reached (known id (c id).member_table)) id t shape
          (heard id))
        (s.heard i id);
  grows = λ v r. subst (λ o. Reached o v) kept r;
}
  where
    kept :
        known i (c i).member_table
        ≡ known i (seed_merge (c i).self_node_id clock (records t) (c i).member_table)
    kept =
        subst
          (λ k.
            known k (c i).member_table
            ≡ known k (seed_merge (c i).self_node_id clock (records t) (c i).member_table))
          (s.named i)
          (ap version_of (
            mine
            ∙ sym (seed_merge-own (c i).self_node_id e clock (records t) (c i).member_table mine)))
