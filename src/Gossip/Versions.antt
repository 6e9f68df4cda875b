-- ===== src/Gossip/Versions.antt =====
-- `mergeView` and `doGossipRound` of src/GossipMembership.cpp as a join of what the table
-- knows of a node, ordered by generation, then heartbeat, then severity of the status.
use hpe_distributed_key_valu.Prelude.{
  ℕ, suc, ◌≡◌, refl, sym, ap, ◌∙◌, Bool, true, false, ◌||◌, List, [], ◌∷◌, Option, none, some,
  arith, if◌then◌else◌, ltb, ℤ, ◌==ℤ◌, ==ℤ_iff,
}
use hpe_distributed_key_valu.Gossip.State.{
  MemberRecord, MemberEntry, MemberTable, GossipMembership, severity, find, notify_change,
}
use hpe_distributed_key_valu.Gossip.Merge.{
  Rule, merge_known, round_known, take_in, take_all, proposal, write_back, settle, merge_view,
  take_response,
}
use hpe_distributed_key_valu.Gossip.Table.{find-put}

-- What the merges compare of a record; its endpoint is not part of it.
pub record Version : Type 0 where
  pub generation : ℕ
  pub heartbeat : ℕ
  pub severity : ℕ

abbrev pub version : MemberRecord → Version
version r = record {
  generation = r.generation;
  heartbeat = r.heartbeat_counter;
  severity = severity r.status;
}

abbrev pub older : Version → Version → Bool
older v w =
    if ltb v.generation w.generation
    then true
    else if ltb w.generation v.generation
    then false
    else if ltb v.heartbeat w.heartbeat
    then true
    else if ltb w.heartbeat v.heartbeat
    then false
    else ltb v.severity w.severity

-- The greater of what is known and what is told.
unfoldable pub join : Option Version → Version → Option Version
join none w = some w
join (some v) w = if older v w then some w else some v

abbrev pub version_of : Option MemberEntry → Option Version
version_of none = none
version_of (some e) = some (version e.info)

abbrev pub known : ℤ → MemberTable → Option Version
known id table = version_of (find id table)

abbrev or_else : Option MemberEntry → Option MemberEntry → Option MemberEntry
or_else none o = o
or_else (some e) o = some e

-- A rule that takes the greater of the two versions.
abbrev IsJoin : Rule → Type 0
IsJoin rule =
    (now : ℕ) (r : MemberRecord) (e : MemberEntry)
    → version_of (or_else (rule now r e.info) (some e)) ≡ join (some (version e.info)) (version r)

merge_known-IsJoin : IsJoin merge_known
unfolding merge_known join
merge_known-IsJoin now r e = ground arith

round_known-IsJoin : IsJoin round_known
unfolding round_known join
round_known-IsJoin now r e = ground arith

pub join_comm : (o : Option Version) (v w : Version) → join (join o v) w ≡ join (join o w) v
unfolding join
join_comm none v w = ground arith
join_comm (some u) v w = ground arith

pub join_idem : (o : Option Version) (v : Version) → join (join o v) v ≡ join o v
unfolding join
join_idem none v = ground arith
join_idem (some u) v = ground arith

-- What is known of `id` once a node has been told the records: those of `id`, unless it is the node
-- itself, each joined to what was known before.
unfoldable pub told : ℤ → ℤ → List MemberRecord → Option Version → Option Version
told self id [] o = o
told self id (r ∷ rs) o =
    told self id rs
      (if r.node_id ==ℤ self then o else if r.node_id ==ℤ id then join o (version r) else o)

write_back-known :
    (k id : ℤ) (o : Option MemberEntry) (table : MemberTable)
    → known id (write_back k o table).0
      ≡ (if k ==ℤ id then version_of (or_else o (find id table)) else known id table)
write_back-known k id none table = ground arith
write_back-known k id (some e) table = ground (arith, find-put k id e table)

module _ (rule : Rule) (is_join : IsJoin rule) (self id : ℤ) where
  proposal-known :
      (now : ℕ) (r : MemberRecord) (o : Option MemberEntry)
      → version_of (or_else (proposal rule now r o) o) ≡ join (version_of o) (version r)
  unfolding join
  proposal-known now r none = refl
  proposal-known now r (some e) = is_join now r e

  take_in-known :
      (now : ℕ) (r : MemberRecord) (table : MemberTable)
      → known id (take_in rule self now r table).0 ≡ (
          if r.node_id ==ℤ self
          then known id table
          else if r.node_id ==ℤ id
          then join (known id table) (version r)
          else known id table)
  unfolding take_in
  take_in-known now r table = ground (
    arith,
    ==ℤ_iff r.node_id id,
    write_back-known r.node_id id (proposal rule now r (find r.node_id table)) table,
    proposal-known now r (find r.node_id table),
  )

  take_all-known :
      (clock : ℕ → ℕ) (rs : List MemberRecord) (table : MemberTable) (changed : Bool)
      → known id (take_all rule self clock rs table changed).0 ≡ told self id rs (known id table)
  unfolding take_all told
  take_all-known clock [] table changed = refl
  take_all-known clock (r ∷ rs) table changed =
      take_all-known (λ i. clock (suc i)) rs (take_in rule self (clock 0) r table).0
        (changed || (take_in rule self (clock 0) r table).1)
      ∙ ap (told self id rs) (take_in-known (clock 0) r table)

notify_change-table : (g : GossipMembership) → (notify_change g).member_table ≡ g.member_table
unfolding notify_change
notify_change-table g = ground arith

pub settle-table : (g : GossipMembership) (m : MemberTable × Bool) → (settle g m).member_table ≡ m.0
settle-table g (table, true) = notify_change-table (record g { member_table = table })
settle-table g (table, false) = refl

-- What `mergeView` leaves known of each node is the join of what was known with every record that
-- came in for it, whatever the clock; of the node itself, what was known.
pub merge_view-told :
    (clock : ℕ → ℕ) (incoming : List MemberRecord) (g : GossipMembership) (id : ℤ)
    → known id (merge_view clock incoming g).0.member_table
      ≡ told g.self_node_id id incoming (known id g.member_table)
unfolding merge_view
merge_view-told clock incoming g id =
    ap (known id) (settle-table g _)
    ∙ take_all-known merge_known merge_known-IsJoin g.self_node_id id clock incoming g.member_table
        false

-- When a round is answered, what it leaves known of each node is what `mergeView` of that answer
-- leaves known, at whatever times.
pub take_response-merge_view :
    (clock clock' : ℕ → ℕ) (response : List MemberRecord) (g : GossipMembership) (id : ℤ)
    → known id (take_response clock (some response) g).member_table
      ≡ known id (merge_view clock' response g).0.member_table
take_response-merge_view clock clock' response g id =
    ap (known id) (settle-table g _)
    ∙ take_all-known round_known round_known-IsJoin g.self_node_id id clock response g.member_table
        false
    ∙ sym (merge_view-told clock' response g id)

pub told-join :
    (self id : ℤ) (rs : List MemberRecord) (o : Option Version) (r : MemberRecord)
    → told self id rs (join o (version r)) ≡ join (told self id rs o) (version r)
unfolding told
told-join self id [] o r = refl
told-join self id (s ∷ rs) o r = ground (
  arith,
  told-join self id rs o r,
  told-join self id rs (join o (version s)) r,
  join_comm o (version r) (version s),
)
