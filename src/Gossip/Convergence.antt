-- ===== src/Gossip/Convergence.antt =====
-- The merges of views in src/GossipMembership.cpp: their order, their repetition, and what a node
-- knows after them.
use hpe_distributed_key_valu.Prelude.{
  ℕ, ◌≡◌, refl, sym, ap, ◌∙◌, Bool, true, false, List, [], ◌∷◌, ◌++◌, Option, none, some, arith, ℤ,
  ◌==ℤ◌, ==ℤ_iff, ==ℤ_refl, Bool-cases, inl, inr, ◌≢◌,
}
use hpe_distributed_key_valu.Gossip.State.{
  MemberRecord, GossipMembership, MemberTable, notify_change,
}
use hpe_distributed_key_valu.Gossip.Merge.{settle, merge_view}
use hpe_distributed_key_valu.Gossip.Versions.{
  Version, version, older, join, join_idem, known, told, told-join, merge_view-told,
}

told_comm :
    (self id : ℤ) (rs ss : List MemberRecord) (o : Option Version)
    → told self id rs (told self id ss o) ≡ told self id ss (told self id rs o)
unfolding told
told_comm self id [] ss o = refl
told_comm self id (r ∷ rs) ss o = ground (
  arith,
  told_comm self id rs ss o,
  told_comm self id rs ss (join o (version r)),
  told-join self id ss o r,
)

told_twice :
    (self id : ℤ) (rs : List MemberRecord) (o : Option Version)
    → told self id rs (told self id rs o) ≡ told self id rs o
unfolding told
told_twice self id [] o = refl
told_twice self id (r ∷ rs) o = ground (
  arith,
  told_twice self id rs o,
  told-join self id rs o r,
  told-join self id rs (told self id rs (join o (version r))) r,
  told-join self id rs (told self id rs o) r,
  join_idem (told self id rs o) (version r),
)

self-notify_change : (g : GossipMembership) → (notify_change g).self_node_id ≡ g.self_node_id
unfolding notify_change
self-notify_change g = ground arith

pub self-settle :
    (g : GossipMembership) (m : MemberTable × Bool) → (settle g m).self_node_id ≡ g.self_node_id
self-settle g (table, true) = self-notify_change (record g { member_table = table })
self-settle g (table, false) = refl

pub self-merge_view :
    (clock : ℕ → ℕ) (rs : List MemberRecord) (g : GossipMembership)
    → (merge_view clock rs g).0.self_node_id ≡ g.self_node_id
unfolding merge_view
self-merge_view clock rs g = self-settle g _

-- What is known after two views have been merged.
merged_twice :
    (clock clock' : ℕ → ℕ) (rs ss : List MemberRecord) (g : GossipMembership) (id : ℤ)
    → known id (merge_view clock' ss (merge_view clock rs g).0).0.member_table
      ≡ told g.self_node_id id ss (told g.self_node_id id rs (known id g.member_table))
merged_twice clock clock' rs ss g id =
    merge_view-told clock' ss (merge_view clock rs g).0 id
    ∙ ap (λ s. told s id ss (known id (merge_view clock rs g).0.member_table))
        (self-merge_view clock rs g)
    ∙ ap (told g.self_node_id id ss) (merge_view-told clock rs g id)

-- Two views may arrive in either order, at whatever times: the node knows the same generation,
-- heartbeat and status of every member.
pub merge_view_order :
    (clock₁ clock₂ clock₃ clock₄ : ℕ → ℕ) (rs ss : List MemberRecord) (g : GossipMembership)
    (id : ℤ)
    → known id (merge_view clock₂ ss (merge_view clock₁ rs g).0).0.member_table
      ≡ known id (merge_view clock₄ rs (merge_view clock₃ ss g).0).0.member_table
merge_view_order clock₁ clock₂ clock₃ clock₄ rs ss g id =
    merged_twice clock₁ clock₂ rs ss g id
    ∙ told_comm g.self_node_id id ss rs (known id g.member_table)
    ∙ sym (merged_twice clock₃ clock₄ ss rs g id)

-- A view that arrives a second time changes nothing that is known.
pub merge_view_again :
    (clock₁ clock₂ : ℕ → ℕ) (rs : List MemberRecord) (g : GossipMembership) (id : ℤ)
    → known id (merge_view clock₂ rs (merge_view clock₁ rs g).0).0.member_table
      ≡ known id (merge_view clock₁ rs g).0.member_table
merge_view_again clock₁ clock₂ rs g id =
    merged_twice clock₁ clock₂ rs rs g id
    ∙ told_twice g.self_node_id id rs (known id g.member_table)
    ∙ sym (merge_view-told clock₁ rs g id)

-- `p` knows at least as much as `o`.
abbrev pub AtMost : Option Version → Option Version → Type 0
AtMost none p = Unit
AtMost (some v) none = ⊥
AtMost (some v) (some w) = older w v ≡ false

AtMost-refl : (o : Option Version) → AtMost o o
AtMost-refl none = tt
AtMost-refl (some v) = ground arith

AtMost-join : (o p : Option Version) (w : Version) → AtMost o p → AtMost o (join p w)
unfolding join
AtMost-join none p w h = tt
AtMost-join (some v) none w h = absurd h
AtMost-join (some v) (some u) w h = ground arith

join-AtMost : (p : Option Version) (w : Version) → AtMost (some w) (join p w)
unfolding join
join-AtMost none w = ground arith
join-AtMost (some v) w = ground arith

told-AtMost :
    (self id : ℤ) (rs : List MemberRecord) (o p : Option Version)
    → AtMost o p
    → AtMost o (told self id rs p)
unfolding told
told-AtMost self id [] o p h = h
told-AtMost self id (r ∷ rs) o p h = elim (Bool-cases (r.node_id ==ℤ self)) [
  | inl own ↦ rw own (told-AtMost self id rs o p h)
  | inr peer ↦ elim (Bool-cases (r.node_id ==ℤ id)) [
    | inl here ↦
        rw (peer, here) (told-AtMost self id rs o (join p (version r)) (AtMost-join o p _ h))
    | inr there ↦ rw (peer, there) (told-AtMost self id rs o p h)
  ]
]

told-append :
    (self id : ℤ) (rs ss : List MemberRecord) (o : Option Version)
    → told self id (rs ++ ss) o ≡ told self id ss (told self id rs o)
unfolding told
told-append self id [] ss o = refl
told-append self id (r ∷ rs) ss o = told-append self id rs ss _

-- A merge loses nothing: of every member the node then knows at least what it knew before.
pub merge_view-keeps :
    (clock : ℕ → ℕ) (incoming : List MemberRecord) (g : GossipMembership) (id : ℤ)
    → AtMost (known id g.member_table) (known id (merge_view clock incoming g).0.member_table)
merge_view-keeps clock incoming g id = rw merge_view-told (
    told-AtMost g.self_node_id id incoming (known id g.member_table) (known id g.member_table)
      (AtMost-refl (known id g.member_table)))

-- After a merge the node knows of another node at least what each record of the view says of it,
-- wherever the record stands in the view.
pub merge_view-learns :
    (clock : ℕ → ℕ) (before after : List MemberRecord) (r : MemberRecord) (g : GossipMembership)
    → r.node_id ≢ g.self_node_id
    → AtMost
        (some (version r))
        (known r.node_id (merge_view clock (before ++ r ∷ after) g).0.member_table)
unfolding told
merge_view-learns clock before after r g peer =
    rw (merge_view-told, told-append, not_self, ==ℤ_refl r.node_id)
      (told-AtMost g.self_node_id r.node_id after (some (version r))
        (join (told g.self_node_id r.node_id before (known r.node_id g.member_table)) (version r))
        (join-AtMost (told g.self_node_id r.node_id before (known r.node_id g.member_table))
          (version r)))
  where
    not_self : (r.node_id ==ℤ g.self_node_id) ≡ false
    not_self = elim (Bool-cases (r.node_id ==ℤ g.self_node_id)) [
      | inl own ↦ absurd (peer ((==ℤ_iff _ _).0 own))
      | inr other ↦ other
    ]
