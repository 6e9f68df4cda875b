-- ===== src/Gossip/Merge.antt =====
-- `mergeView`, `getMemberView`, `pickRandomPeer` and `doGossipRound` of src/GossipMembership.cpp.
use hpe_distributed_key_valu.Prelude.{
  ℕ, suc, Bool, true, false, not, ◌&&◌, ◌||◌, List, [], ◌∷◌, Option, none, some, ltb, ◌==◌,
  if◌then◌else◌, length, get_or, is_empty, Text, ℤ, ◌==ℤ◌,
}
use hpe_distributed_key_valu.Gossip.State.{
  severity, MemberRecord, MemberEntry, MemberTable, find, put, records, GossipMembership, is_alive,
  notify_change,
}

abbrev pub entry : MemberRecord → ℕ → MemberEntry
entry r now = record { info = r; last_updated_ms = now }

-- The rules of `mergeView` for a node that is in the table; `none` leaves its entry as it is.
unfoldable pub merge_known : ℕ → MemberRecord → MemberRecord → Option MemberEntry
merge_known now r_in local =
    if ltb local.generation r_in.generation
    then some (entry r_in now)
    else if ltb r_in.generation local.generation
    then none
    else if ltb local.heartbeat_counter r_in.heartbeat_counter
    then some (
        entry (record local { heartbeat_counter = r_in.heartbeat_counter; status = r_in.status })
          now)
    else if r_in.heartbeat_counter == local.heartbeat_counter
        && ltb (severity local.status) (severity r_in.status)
    then some (entry (record local { status = r_in.status }) now)
    else none

-- The rule of `doGossipRound` for the same: the whole record is taken or nothing.
unfoldable pub round_known : ℕ → MemberRecord → MemberRecord → Option MemberEntry
round_known now r local =
    if ltb local.generation r.generation
      || (r.generation == local.generation && ltb local.heartbeat_counter r.heartbeat_counter
          || r.generation == local.generation
            && (r.heartbeat_counter == local.heartbeat_counter
                && ltb (severity local.status) (severity r.status)))
    then some (entry r now)
    else none

-- One round of the loop over the incoming records: the new table, and whether it changed. `known`
-- is the rule for a node that the table has.
abbrev pub Rule : Type 0
Rule = ℕ → MemberRecord → MemberRecord → Option MemberEntry

abbrev pub write_back : ℤ → Option MemberEntry → MemberTable → MemberTable × Bool
write_back id none table = (table, false)
write_back id (some e) table = (put id e table, true)

-- What is written for the entry that the table has, or has not.
abbrev pub proposal : Rule → ℕ → MemberRecord → Option MemberEntry → Option MemberEntry
proposal known now r none = some (entry r now)
proposal known now r (some e) = known now r e.info

unfoldable pub take_in : Rule → ℤ → ℕ → MemberRecord → MemberTable → MemberTable × Bool
take_in known self now r table =
    if r.node_id ==ℤ self
    then (table, false)
    else write_back r.node_id (proposal known now r (find r.node_id table)) table

unfoldable pub take_all :
    Rule → ℤ → (ℕ → ℕ) → List MemberRecord → MemberTable → Bool → MemberTable × Bool
take_all known self clock [] table changed = (table, changed)
take_all known self clock (r ∷ incoming) table changed =
    let (table', c) = take_in known self (clock 0) r table in
    take_all known self (λ i. clock (suc i)) incoming table' (changed || c)

abbrev pub settle : GossipMembership → MemberTable × Bool → GossipMembership
settle g (table, changed) =
    if changed
    then notify_change (record g { member_table = table })
    else record g { member_table = table }

-- The new state, and the merged view as the response.
unfoldable pub merge_view :
    (ℕ → ℕ) → List MemberRecord → GossipMembership → GossipMembership × List MemberRecord
merge_view clock incoming g =
    let merged = take_all merge_known g.self_node_id clock incoming g.member_table false in
    (settle g merged, records merged.0)

unfoldable pub get_member_view : GossipMembership → List MemberRecord
get_member_view g = records g.member_table

unfoldable pub alive_peers : ℤ → MemberTable → List Text
alive_peers self [] = []
alive_peers self ((id, e) ∷ table) =
    let rest = alive_peers self table in
    if not (id ==ℤ self) && is_alive e.info.status then e.info.endpoint ∷ rest else rest

-- An empty text where no peer is alive. `random_int n` is below `n`.
unfoldable pub pick_random_peer : (ℕ → ℕ) → GossipMembership → Text
pick_random_peer random_int g =
    let peers = alive_peers g.self_node_id g.member_table in
    if is_empty peers then [] else get_or peers (random_int (length peers)) []

abbrev pub Exchange : Type 0
Exchange = Text → List MemberRecord → Option (List MemberRecord)

abbrev pub take_response :
    (ℕ → ℕ) → Option (List MemberRecord) → GossipMembership → GossipMembership
take_response clock none g = g
take_response clock (some response) g =
    settle g (take_all round_known g.self_node_id clock response g.member_table false)

unfoldable pub do_gossip_round : Exchange → (ℕ → ℕ) → (ℕ → ℕ) → GossipMembership → GossipMembership
do_gossip_round exchange random_int clock g =
    let peer = pick_random_peer random_int g in
    if is_empty peer then g else take_response clock (exchange peer (records g.member_table)) g
