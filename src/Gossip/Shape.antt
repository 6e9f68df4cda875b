-- ===== src/Gossip/Shape.antt =====
-- The shape of the member table of src/GossipMembership.cpp: each entry stands under the id of its
-- record, and an id has one entry.
use hpe_distributed_key_valu.Prelude.{
  ℕ, suc, ◌≡◌, refl, sym, ◌∙◌, Bool, false, ◌||◌, List, [], ◌∷◌, Option, none, some, arith,
  is_empty, ℤ, ◌==ℤ◌, ==ℤ_iff, Bool-cases, inl, inr,
}
use hpe_distributed_key_valu.Gossip.State.{
  MemberRecord, MemberEntry, MemberTable, GossipMembership, find, put,
}
use hpe_distributed_key_valu.Gossip.Merge.{
  Rule, merge_known, round_known, write_back, proposal, take_in, take_all, settle, merge_view,
  take_response, Exchange, do_gossip_round, pick_random_peer,
}
use hpe_distributed_key_valu.Gossip.Rounds.{detect, detect_failures, beat, at_self, gossip_tick}
use hpe_distributed_key_valu.Gossip.Table.{find-put}
use hpe_distributed_key_valu.Gossip.Versions.{settle-table}

abbrev pub IsTable : MemberTable → Type 0
IsTable [] = Unit
IsTable ((k, e) ∷ table) = (e.info.node_id ≡ k) × ((find k table ≡ none) × IsTable table)

pub put-IsTable :
    (k : ℤ) (e : MemberEntry) (table : MemberTable)
    → e.info.node_id ≡ k
    → IsTable table
    → IsTable (put k e table)
unfolding put find
put-IsTable k e [] h t = (h, (refl, tt))
put-IsTable k e ((j, old) ∷ table) h t = elim (Bool-cases (j ==ℤ k)) [
  | inl same ↦ rw same (h ∙ sym ((==ℤ_iff j k).0 same), (t.1.0, t.1.1))
  | inr other ↦ rw other (
    t.0,
    (
      find-put k j e table ∙ ground (arith, t.1.0, ==ℤ_iff k j, ==ℤ_iff j k),
      put-IsTable k e table h t.1.1,
    ),
  )
]

pub find-IsTable :
    (k : ℤ) (e : MemberEntry) (table : MemberTable)
    → IsTable table
    → find k table ≡ some e
    → e.info.node_id ≡ k
unfolding find
find-IsTable k e [] t h = cc
find-IsTable k e ((j, old) ∷ table) t h =
    ground (arith, find-IsTable k e table t.1.1, t.0, ==ℤ_iff j k)

-- The rule writes the id of the incoming record, where the entry that it replaces had it.
abbrev KeepsId : Rule → Type 0
KeepsId rule =
    (now : ℕ) (r local : MemberRecord) (e : MemberEntry)
    → local.node_id ≡ r.node_id
    → rule now r local ≡ some e
    → e.info.node_id ≡ r.node_id

merge_known-KeepsId : KeepsId merge_known
unfolding merge_known
merge_known-KeepsId now r local e h w = ground arith

round_known-KeepsId : KeepsId round_known
unfolding round_known
round_known-KeepsId now r local e h w = ground arith

module _ (rule : Rule) (keeps : KeepsId rule) (self : ℤ) where
  take_in-IsTable :
      (now : ℕ) (r : MemberRecord) (table : MemberTable)
      → IsTable table
      → IsTable (take_in rule self now r table).0
  unfolding take_in
  take_in-IsTable now r table t = elim (Bool-cases (r.node_id ==ℤ self)) [
    | inl own ↦ rw own t
    | inr peer ↦ rw peer (written (find r.node_id table) refl)
  ]
    where
      replaced :
          (o : Option MemberEntry)
          → ((e : MemberEntry) → o ≡ some e → e.info.node_id ≡ r.node_id)
          → IsTable (write_back r.node_id o table).0
      replaced none h = t
      replaced (some e) h = put-IsTable r.node_id e table (h e refl) t

      written :
          (o : Option MemberEntry)
          → find r.node_id table ≡ o
          → IsTable (write_back r.node_id (proposal rule now r o) table).0
      written none h = put-IsTable r.node_id _ table refl t
      written (some e) h =
          replaced (rule now r e.info)
            λ e' w. keeps now r e.info e' (find-IsTable r.node_id e table t h) w

  take_all-IsTable :
      (clock : ℕ → ℕ) (rs : List MemberRecord) (table : MemberTable) (changed : Bool)
      → IsTable table
      → IsTable (take_all rule self clock rs table changed).0
  unfolding take_all
  take_all-IsTable clock [] table changed t = t
  take_all-IsTable clock (r ∷ rs) table changed t =
      take_all-IsTable (λ i. clock (suc i)) rs (take_in rule self (clock 0) r table).0
        (changed || (take_in rule self (clock 0) r table).1) (take_in-IsTable (clock 0) r table t)

settle-IsTable :
    (g : GossipMembership) (m : MemberTable × Bool)
    → IsTable m.0
    → IsTable (settle g m).member_table
settle-IsTable g m t = rw settle-table t

-- If each entry stands under the id of its record, and an id has one entry, it is so after
-- `mergeView`, whatever the view.
pub merge_view-IsTable :
    (clock : ℕ → ℕ) (incoming : List MemberRecord) (g : GossipMembership)
    → IsTable g.member_table
    → IsTable (merge_view clock incoming g).0.member_table
unfolding merge_view
merge_view-IsTable clock incoming g t = settle-IsTable g _ (
    take_all-IsTable merge_known merge_known-KeepsId g.self_node_id clock incoming g.member_table
      false t)

pub take_response-IsTable :
    (clock : ℕ → ℕ) (response : Option (List MemberRecord)) (g : GossipMembership)
    → IsTable g.member_table
    → IsTable (take_response clock response g).member_table
take_response-IsTable clock none g t = t
take_response-IsTable clock (some rs) g t = settle-IsTable g _ (
    take_all-IsTable round_known round_known-KeepsId g.self_node_id clock rs g.member_table false t)

do_gossip_round-IsTable :
    (exchange : Exchange) (random_int clock : ℕ → ℕ) (g : GossipMembership)
    → IsTable g.member_table
    → IsTable (do_gossip_round exchange random_int clock g).member_table
unfolding do_gossip_round
do_gossip_round-IsTable exchange random_int clock g t =
    elim (Bool-cases (is_empty (pick_random_peer random_int g))) [
      | inl lone ↦ rw lone t
      | inr peer ↦ rw peer (take_response-IsTable clock _ g t)
    ]

module _ (self suspect_ms dead_ms : ℤ) (now : ℕ) where
  find-detect-none :
      (k : ℤ) (table : MemberTable)
      → find k table ≡ none
      → find k (detect self suspect_ms dead_ms now table).0 ≡ none
  unfolding find detect
  find-detect-none k [] h = refl
  find-detect-none k ((j, e) ∷ table) h = ground (arith, find-detect-none k table)

  detect-IsTable :
      (table : MemberTable) → IsTable table → IsTable (detect self suspect_ms dead_ms now table).0
  unfolding detect
  detect-IsTable [] t = tt
  detect-IsTable ((k, e) ∷ table) t = elim (Bool-cases (k ==ℤ self)) [
    | inl own ↦ rw own (t.0, (find-detect-none k table t.1.0, detect-IsTable table t.1.1))
    | inr peer ↦ rw peer (t.0, (find-detect-none k table t.1.0, detect-IsTable table t.1.1))
  ]

pub at_self-IsTable :
    (change : MemberEntry → MemberEntry) (g : GossipMembership)
    → ((e : MemberEntry) → (change e).info.node_id ≡ e.info.node_id)
    → IsTable g.member_table
    → IsTable (at_self change g).member_table
at_self-IsTable change g keeps t = by_entry (find g.self_node_id g.member_table) refl
  where
    changed : Option MemberEntry → GossipMembership
    changed none = g
    changed (some e) = record g { member_table = put g.self_node_id (change e) g.member_table }

    by_entry :
        (o : Option MemberEntry)
        → find g.self_node_id g.member_table ≡ o
        → IsTable (changed o).member_table
    by_entry none h = t
    by_entry (some e) h =
        put-IsTable g.self_node_id (change e) g.member_table
          (keeps e ∙ find-IsTable g.self_node_id e g.member_table t h) t

pub detect_failures-IsTable :
    (now : ℕ) (g : GossipMembership)
    → IsTable g.member_table
    → IsTable (detect_failures now g).member_table
unfolding detect_failures
detect_failures-IsTable now g t =
    settle-IsTable g
      (detect g.self_node_id g.suspect_threshold_ms g.dead_threshold_ms now g.member_table)
      (detect-IsTable g.self_node_id g.suspect_threshold_ms g.dead_threshold_ms now g.member_table
        t)

-- If each entry stands under the id of its record, and an id has one entry, it is so after a round
-- of the gossip loop, whatever the peer answers.
pub gossip_tick-IsTable :
    (exchange : Exchange) (random_int clock : ℕ → ℕ) (g : GossipMembership)
    → IsTable g.member_table
    → IsTable (gossip_tick exchange random_int clock g).member_table
unfolding gossip_tick
gossip_tick-IsTable exchange random_int clock g t = elim (Bool-cases g.running) [
  | inr over ↦ simp over t
  | inl runs ↦ simp runs (
      do_gossip_round-IsTable exchange random_int (λ i. clock (suc (suc i)))
        (detect_failures (clock 1) (at_self (beat (clock 0)) g))
        (detect_failures-IsTable (clock 1) (at_self (beat (clock 0)) g)
          (at_self-IsTable (beat (clock 0)) g (λ e. refl) t)))
]
