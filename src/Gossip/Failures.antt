-- ===== src/Gossip/Failures.antt =====
-- `detectFailures` of src/GossipMembership.cpp.
use hpe_distributed_key_valu.Prelude.{
  ℕ, ◌-◌, ◌≤◌, ◌<◌, ◌≡◌, refl, ap, ◌∙◌, [], ◌∷◌, Option, none, some, arith, if◌then◌else◌, ℤ, pos,
  ◌==ℤ◌, ==ℤ_iff, Bool-cases, inl, inr, ◌⊎◌, ◌↔◌, ◌≢◌,
}
use hpe_distributed_key_valu.Gossip.State.{
  alive, dead, MemberEntry, MemberTable, GossipMembership, find,
}
use hpe_distributed_key_valu.Gossip.Rounds.{
  u64_mod, age_ms, suspect_status, dead_status, aged_status, detect, detect_failures,
}
use hpe_distributed_key_valu.Gossip.Versions.{settle-table}

-- What the table holds of a peer after the round: the entry with its status aged.
abbrev pub aged : ℤ → ℤ → ℕ → MemberEntry → MemberEntry
aged suspect_ms dead_ms now e = record e {
  info = record e.info { status = aged_status suspect_ms dead_ms now e };
}

abbrev pub aged? : ℤ → ℤ → ℕ → Option MemberEntry → Option MemberEntry
aged? suspect_ms dead_ms now none = none
aged? suspect_ms dead_ms now (some e) = some (aged suspect_ms dead_ms now e)

module _ (self suspect_ms dead_ms : ℤ) (now : ℕ) where
  find-detect :
      (id : ℤ) (table : MemberTable)
      → find id (detect self suspect_ms dead_ms now table).0
        ≡ (if id ==ℤ self then find id table else aged? suspect_ms dead_ms now (find id table))
  unfolding find detect
  find-detect id [] = ground arith
  find-detect id ((k, e) ∷ table) =
      ground (arith, find-detect id table, ==ℤ_iff k id, ==ℤ_iff k self, ==ℤ_iff id self)

pub detect_failures-find :
    (now : ℕ) (g : GossipMembership) (id : ℤ)
    → find id (detect_failures now g).member_table ≡ (
        if id ==ℤ g.self_node_id
        then find id g.member_table
        else aged? g.suspect_threshold_ms g.dead_threshold_ms now (find id g.member_table))
unfolding detect_failures
detect_failures-find now g id =
    ap (find id) (settle-table g _)
    ∙ find-detect g.self_node_id g.suspect_threshold_ms g.dead_threshold_ms now id g.member_table

-- What a round makes of a peer's entry: all but the status stays; the peer is alive after it exactly
-- when it was alive and its age is within the first threshold, and dead exactly when it was dead or
-- its age is past the second.
pub record Verdict (suspect_ms dead_ms age : ℕ) (old new : MemberEntry) : Type 0 where
  pub kept : new ≡ record old { info = record old.info { status = new.info.status } }
  pub alive_iff : (new.info.status ≡ alive) ↔ ((old.info.status ≡ alive) × (age ≤ suspect_ms))
  pub dead_iff : (new.info.status ≡ dead) ↔ ((old.info.status ≡ dead) ⊎ (dead_ms < age))

aged-Verdict :
    (suspect_ms dead_ms now : ℕ) (e : MemberEntry)
    → suspect_ms ≤ dead_ms
    → e.last_updated_ms ≤ now
    → now < u64_mod
    → Verdict suspect_ms dead_ms
        (now - e.last_updated_ms)
        e
        (aged (pos suspect_ms) (pos dead_ms) now e)
unfolding aged_status age_ms suspect_status dead_status
aged-Verdict suspect_ms dead_ms now e h k l = record {
  kept = refl;
  alive_iff = ground arith;
  dead_iff = ground arith;
}

-- With the thresholds in order, and a clock that has not gone back since the entry was updated, a
-- round of failure detection judges a peer by its old status and its age alone, in one round even if
-- its age passes both thresholds.
pub detect_failures_lem :
    (suspect_ms dead_ms now : ℕ) (g : GossipMembership) (id : ℤ) (e : MemberEntry)
    → g.suspect_threshold_ms ≡ pos suspect_ms
    → g.dead_threshold_ms ≡ pos dead_ms
    → suspect_ms ≤ dead_ms
    → find id g.member_table ≡ some e
    → id ≢ g.self_node_id
    → e.last_updated_ms ≤ now
    → now < u64_mod
    → (e' : MemberEntry) × (find id (detect_failures now g).member_table ≡ some e')
      × Verdict suspect_ms dead_ms (now - e.last_updated_ms) e e'
detect_failures_lem suspect_ms dead_ms now g id e s d h found peer k l =
    elim (Bool-cases (id ==ℤ g.self_node_id)) [
      | inl own ↦ absurd (peer ((==ℤ_iff _ _).0 own))
      | inr other ↦ (
        aged (pos suspect_ms) (pos dead_ms) now e,
        rw (detect_failures-find, other, found, s, d),
        aged-Verdict suspect_ms dead_ms now e h k l,
      )
    ]
