-- ===== src/Gossip/Endpoints.antt =====
-- The whole records that `mergeView` and `doGossipRound` of src/GossipMembership.cpp leave, endpoints
-- included. Within a generation `mergeView` keeps the endpoint that the table has, so the endpoints of
-- two tables agree only if a node has one endpoint for each of its generations.
use mathlib.Core.Path.{subst}
use hpe_distributed_key_valu.Prelude.{
  ℕ, suc, ◌≡◌, ◌≢◌, refl, sym, ap, ◌∙◌, Bool, false, ◌||◌, List, [], ◌∷◌, Option, none, some, arith,
  All, Text, ℤ, ◌==ℤ◌, Bool-cases, inl, inr,
}
use hpe_distributed_key_valu.Gossip.State.{
  severity, NodeStatus, MemberRecord, MemberEntry, MemberTable, GossipMembership, find, put,
  records,
}
use hpe_distributed_key_valu.Gossip.Merge.{
  Rule, merge_known, round_known, write_back, proposal, take_in, take_all, settle, merge_view,
  take_response,
}
use hpe_distributed_key_valu.Gossip.Versions.{Version, version, version_of, known, settle-table}
use hpe_distributed_key_valu.Gossip.Shape.{
  IsTable, find-IsTable, merge_view-IsTable, take_response-IsTable,
}
use hpe_distributed_key_valu.Gossip.Convergence.{merge_view_order}
use hpe_distributed_key_valu.Gossip.Agreement.{exchange_agrees, response-records}

-- The record has the endpoint of its node in its generation.
abbrev pub IsAt : (ℤ → ℕ → Text) → MemberRecord → Type 0
IsAt endpoint_of r = r.endpoint ≡ endpoint_of r.node_id r.generation

-- The record that the table has of a node.
abbrev info_of : Option MemberEntry → Option MemberRecord
info_of none = none
info_of (some e) = some e.info

abbrev pub info : ℤ → MemberTable → Option MemberRecord
info id table = info_of (find id table)

module _ (endpoint_of : ℤ → ℕ → Text) where
  abbrev AllAt : MemberTable → Type 0
  AllAt table = All (IsAt endpoint_of) (records table)

  put-AllAt :
      (k : ℤ) (e : MemberEntry) (table : MemberTable)
      → IsAt endpoint_of e.info
      → AllAt table
      → AllAt (put k e table)
  unfolding put
  put-AllAt k e [] h t = (h, tt)
  put-AllAt k e ((j, old) ∷ table) h t = elim (Bool-cases (j ==ℤ k)) [
    | inl same ↦ rw same (h, t.1)
    | inr other ↦ rw other (t.0, put-AllAt k e table h t.1)
  ]

  find-IsAt :
      (k : ℤ) (e : MemberEntry) (table : MemberTable)
      → AllAt table
      → find k table ≡ some e
      → IsAt endpoint_of e.info
  unfolding find
  find-IsAt k e [] t h = absurd (cc)
  find-IsAt k e ((j, old) ∷ table) t h = ground (arith, find-IsAt k e table t.1, t.0)

  -- The rule writes a record with the endpoint of its generation, if the two that it is given have
  -- theirs.
  abbrev KeepsAt : Rule → Type 0
  KeepsAt rule =
      (now : ℕ) (r local : MemberRecord) (e : MemberEntry)
      → IsAt endpoint_of r
      → IsAt endpoint_of local
      → rule now r local ≡ some e
      → IsAt endpoint_of e.info

  merge_known-KeepsAt : KeepsAt merge_known
  unfolding merge_known
  merge_known-KeepsAt now r local e h k w = ground arith

  round_known-KeepsAt : KeepsAt round_known
  unfolding round_known
  round_known-KeepsAt now r local e h k w = ground arith

  module _ (rule : Rule) (keeps : KeepsAt rule) (self : ℤ) where
    take_in-AllAt :
        (now : ℕ) (r : MemberRecord) (table : MemberTable)
        → IsAt endpoint_of r
        → AllAt table
        → AllAt (take_in rule self now r table).0
    unfolding take_in
    take_in-AllAt now r table h t = elim (Bool-cases (r.node_id ==ℤ self)) [
      | inl own ↦ rw own t
      | inr peer ↦ rw peer (written (find r.node_id table) refl)
    ]
      where
        replaced :
            (o : Option MemberEntry)
            → ((e : MemberEntry) → o ≡ some e → IsAt endpoint_of e.info)
            → AllAt (write_back r.node_id o table).0
        replaced none k = t
        replaced (some e) k = put-AllAt r.node_id e table (k e refl) t

        written :
            (o : Option MemberEntry)
            → find r.node_id table ≡ o
            → AllAt (write_back r.node_id (proposal rule now r o) table).0
        written none k = put-AllAt r.node_id _ table h t
        written (some e) k =
            replaced (rule now r e.info)
              λ e' w. keeps now r e.info e' h (find-IsAt r.node_id e table t k) w

    take_all-AllAt :
        (clock : ℕ → ℕ) (rs : List MemberRecord) (table : MemberTable) (changed : Bool)
        → All (IsAt endpoint_of) rs
        → AllAt table
        → AllAt (take_all rule self clock rs table changed).0
    unfolding take_all
    take_all-AllAt clock [] table changed hs t = t
    take_all-AllAt clock (r ∷ rs) table changed hs t =
        take_all-AllAt (λ i. clock (suc i)) rs (take_in rule self (clock 0) r table).0
          (changed || (take_in rule self (clock 0) r table).1) hs.1
          (take_in-AllAt (clock 0) r table hs.0 t)

  settle-AllAt :
      (g : GossipMembership) (m : MemberTable × Bool) → AllAt m.0 → AllAt (settle g m).member_table
  settle-AllAt g m t = rw settle-table t

  merge_view-AllAt :
      (clock : ℕ → ℕ) (incoming : List MemberRecord) (g : GossipMembership)
      → All (IsAt endpoint_of) incoming
      → AllAt g.member_table
      → AllAt (merge_view clock incoming g).0.member_table
  unfolding merge_view
  merge_view-AllAt clock incoming g hs t = settle-AllAt g _ (
      take_all-AllAt merge_known merge_known-KeepsAt g.self_node_id clock incoming g.member_table
        false hs t)

  take_response-AllAt :
      (clock : ℕ → ℕ) (response : List MemberRecord) (g : GossipMembership)
      → All (IsAt endpoint_of) response
      → AllAt g.member_table
      → AllAt (take_response clock (some response) g).member_table
  take_response-AllAt clock rs g hs t = settle-AllAt g _ (
      take_all-AllAt round_known round_known-KeepsAt g.self_node_id clock rs g.member_table false hs
        t)

  severity_injective : (s t : NodeStatus) → severity s ≡ severity t → s ≡ t
  severity_injective s t h = ground arith

  same_record :
      (r s : MemberRecord)
      → IsAt endpoint_of r
      → IsAt endpoint_of s
      → r.node_id ≡ s.node_id
      → version r ≡ version s
      → r ≡ s
  same_record r s h k id v =
      let g : r.generation ≡ s.generation = ap (λ (x : Version). x.generation) v in
      let b : r.heartbeat_counter ≡ s.heartbeat_counter = ap (λ (x : Version). x.heartbeat) v in
      let st = severity_injective r.status s.status (ap (λ (x : Version). x.severity) v) in
      let e : r.endpoint ≡ s.endpoint = cc in cc

  -- Two tables with the same version of a node have the same record of it.
  same_info :
      (id : ℤ) (t u : MemberTable)
      → IsTable t
      → IsTable u
      → AllAt t
      → AllAt u
      → known id t ≡ known id u
      → info id t ≡ info id u
  same_info id t u shape shape' at at' =
      by_entries (find id t) (find id u)
        (λ e h. (find-IsTable id e t shape h, find-IsAt id e t at h))
        (λ e h. (find-IsTable id e u shape' h, find-IsAt id e u at' h))
    where
      unsome : {v w : Version} → some v ≡ some w → v ≡ w
      unsome h = cc

      by_entries :
          (o p : Option MemberEntry)
          → ((e : MemberEntry) → o ≡ some e → (e.info.node_id ≡ id) × IsAt endpoint_of e.info)
          → ((e : MemberEntry) → p ≡ some e → (e.info.node_id ≡ id) × IsAt endpoint_of e.info)
          → version_of o ≡ version_of p
          → info_of o ≡ info_of p
      by_entries none none h k v = refl
      by_entries none (some e) h k v = absurd (cc)
      by_entries (some e) none h k v = absurd (cc)
      by_entries (some e) (some f) h k v = ap some (
          same_record e.info f.info (h e refl).1 (k f refl).1 ((h e refl).0 ∙ sym (k f refl).0)
            (unsome v))

  -- If each record that is told or known has the endpoint of its node in its generation, and the table has
  -- one entry for an id, under the id of its record: two views may arrive in either order, at whatever
  -- times, and the node has the same record of every member, endpoint and all.
  pub merge_view_commutes :
      (clock₁ clock₂ clock₃ clock₄ : ℕ → ℕ) (rs ss : List MemberRecord) (g : GossipMembership)
      (id : ℤ)
      → IsTable g.member_table
      → All (IsAt endpoint_of) (records g.member_table)
      → All (IsAt endpoint_of) rs
      → All (IsAt endpoint_of) ss
      → info id (merge_view clock₂ ss (merge_view clock₁ rs g).0).0.member_table
        ≡ info id (merge_view clock₄ rs (merge_view clock₃ ss g).0).0.member_table
  merge_view_commutes clock₁ clock₂ clock₃ clock₄ rs ss g id shape at hr hs =
      let first = (merge_view clock₁ rs g).0 in
      let second = (merge_view clock₃ ss g).0 in
      same_info id _ _ (merge_view-IsTable clock₂ ss first (merge_view-IsTable clock₁ rs g shape))
        (merge_view-IsTable clock₄ rs second (merge_view-IsTable clock₃ ss g shape))
        (merge_view-AllAt clock₂ ss first hs (merge_view-AllAt clock₁ rs g hr at))
        (merge_view-AllAt clock₄ rs second hr (merge_view-AllAt clock₃ ss g hs at))
        (merge_view_order clock₁ clock₂ clock₃ clock₄ rs ss g id)

  -- The node `a` sends its view to the node `b`, which merges it and answers with its own, and `a`
  -- takes the answer. The tables of both have each entry under the id of its record and one entry for
  -- an id, and each record in them has the endpoint of its node in its generation. Then both nodes have
  -- the same record of every third node, endpoint and all.
  pub exchange_shares :
      (clock clock' : ℕ → ℕ) (a b : GossipMembership) (id : ℤ)
      → IsTable a.member_table
      → IsTable b.member_table
      → All (IsAt endpoint_of) (records a.member_table)
      → All (IsAt endpoint_of) (records b.member_table)
      → id ≢ a.self_node_id
      → id ≢ b.self_node_id
      → info id
          (take_response clock
            (some (merge_view clock' (records a.member_table) b).1)
            a).member_table
        ≡ info id (merge_view clock' (records a.member_table) b).0.member_table
  exchange_shares clock clock' a b id ta tb at at' not_a not_b =
      let sent = records a.member_table in
      let answered = merge_view-AllAt clock' sent b at at' in
      let response =
        subst (All (IsAt endpoint_of)) (sym (response-records clock' sent b)) answered in
      same_info id _ _ (take_response-IsTable clock (some (merge_view clock' sent b).1) a ta)
        (merge_view-IsTable clock' sent b tb)
        (take_response-AllAt clock (merge_view clock' sent b).1 a response at) answered
        (exchange_agrees clock clock' a b id ta tb not_a not_b)
