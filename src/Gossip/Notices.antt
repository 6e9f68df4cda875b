-- ===== src/Gossip/Notices.antt =====
-- When the operations of src/GossipMembership.cpp call the change callback.
use hpe_distributed_key_valu.Prelude.{
  ℕ, suc, ◌≡◌, refl, sym, ap, ◌∙◌, ◌⊎◌, inl, inr, Bool, true, false, not, ◌||◌, List, [], ◌∷◌,
  Option, none, some, arith, ◌==◌, if_all, is_empty, ℤ, ◌==ℤ◌, Bool-cases,
}
use hpe_distributed_key_valu.Gossip.State.{
  NodeStatus, severity, MemberRecord, MemberEntry, MemberTable, GossipMembership, find, put,
  current_alive,
}
use hpe_distributed_key_valu.Gossip.Merge.{
  Rule, Exchange, proposal, write_back, take_in, take_all, settle, merge_view, merge_known,
  round_known, take_response, do_gossip_round, pick_random_peer,
}
use hpe_distributed_key_valu.Gossip.Rounds.{
  aged_status, detect, detect_failures, at_self, beat, gossip_tick,
}
use hpe_distributed_key_valu.Gossip.Alive.{
  alive_set, IsTold, IsDelivered, notify_change-IsTold, notify_change-IsDelivered,
  callback-notify_change, current_alive-put,
}

-- What an operation does to the callback's view: after it the callback knows the live members, or
-- the operation changed neither them nor what the callback knows.
abbrev pub IsHeard : GossipMembership → GossipMembership → Type 0
IsHeard g h =
    IsTold h
    ⊎ ((alive_set h ≡ alive_set g)
        × (h.last_alive_set ≡ g.last_alive_set)
        × (h.delivered ≡ g.delivered))

pub record IsNotified (g h : GossipMembership) : Type 0 where
  pub heard : IsHeard g h
  pub delivers : IsDelivered g → IsDelivered h
  pub callback : h.has_callback ≡ g.has_callback

pub IsNotified-refl : (g : GossipMembership) → IsNotified g g
IsNotified-refl g = record { heard = inr (refl, refl, refl); delivers = λ d. d; callback = refl }

IsHeard-trans : (g h k : GossipMembership) → IsHeard g h → IsHeard h k → IsHeard g k
IsHeard-trans g h k a (inl told) = inl told
IsHeard-trans g h k (inl told) (inr (alive, last, sent)) = inl (last ∙ (told ∙ sym alive))
IsHeard-trans g h k (inr (a, l, s)) (inr (alive, last, sent)) = inr (alive ∙ a, last ∙ l, sent ∙ s)

pub IsNotified-trans : (g h k : GossipMembership) → IsNotified g h → IsNotified h k → IsNotified g k
IsNotified-trans g h k a b = record {
  heard = IsHeard-trans g h k a.heard b.heard;
  delivers = λ d. b.delivers (a.delivers d);
  callback = b.callback ∙ a.callback;
}

-- A loop that reports no change leaves the table as it was.
abbrev IsKept : MemberTable → MemberTable × Bool → Type 0
IsKept t m = m.1 ≡ false → m.0 ≡ t

or_false : (a b : Bool) → (a || b) ≡ false → (a ≡ false) × (b ≡ false)
or_false a b h = ground arith

module _ (rule : Rule) (self : ℤ) where
  write_back-IsKept :
      (id : ℤ) (o : Option MemberEntry) (t : MemberTable) → IsKept t (write_back id o t)
  write_back-IsKept id none t h = refl
  write_back-IsKept id (some e) t h = absurd (cc)

  take_in-IsKept :
      (now : ℕ) (r : MemberRecord) (t : MemberTable) → IsKept t (take_in rule self now r t)
  unfolding take_in
  take_in-IsKept now r t = elim (Bool-cases (r.node_id ==ℤ self)) [
    | inl own ↦ rw own (λ h. refl)
    | inr other ↦ rw other (write_back-IsKept r.node_id (proposal rule now r (find r.node_id t)) t)
  ]

  take_all-kept :
      (clock : ℕ → ℕ) (rs : List MemberRecord) (t : MemberTable) (changed : Bool)
      → (take_all rule self clock rs t changed).1 ≡ false
      → ((take_all rule self clock rs t changed).0 ≡ t) × (changed ≡ false)
  unfolding take_all
  take_all-kept clock [] t changed h = (refl, h)
  take_all-kept clock (r ∷ rs) t changed h =
      kept (changed || (take_in rule self (clock 0) r t).1) refl
        (take_all-kept (λ i. clock (suc i)) rs (take_in rule self (clock 0) r t).0 _ h)
    where
      kept :
          {u : MemberTable} (c : Bool)
          → c ≡ (changed || (take_in rule self (clock 0) r t).1)
          → (u ≡ (take_in rule self (clock 0) r t).0) × (c ≡ false)
          → (u ≡ t) × (changed ≡ false)
      kept c e (same, no_change) =
          let either = or_false changed _ (sym e ∙ no_change) in
          (same ∙ take_in-IsKept (clock 0) r t either.1, either.0)

same_status : (s t : NodeStatus) → (severity s == severity t) ≡ true → s ≡ t
same_status s t h = ground arith

detect-IsKept :
    (self suspect_ms dead_ms : ℤ) (now : ℕ) (t : MemberTable)
    → IsKept t (detect self suspect_ms dead_ms now t)
unfolding detect
detect-IsKept self suspect_ms dead_ms now [] h = refl
detect-IsKept self suspect_ms dead_ms now ((id, e) ∷ t) h = ground (
  arith,
  detect-IsKept self suspect_ms dead_ms now t,
  same_status (aged_status suspect_ms dead_ms now e) e.info.status,
)

settle-IsNotified :
    (g : GossipMembership) (m : MemberTable × Bool)
    → g.has_callback ≡ true
    → IsKept g.member_table m
    → IsNotified g (settle g m)
settle-IsNotified g (t, true) set kept = record {
  heard = inl (notify_change-IsTold (record g { member_table = t }) set);
  delivers = λ d. notify_change-IsDelivered (record g { member_table = t }) d;
  callback = callback-notify_change (record g { member_table = t });
}
settle-IsNotified g (t, false) set kept = record {
  heard = inr (ap (λ s. current_alive s []) (kept refl), refl, refl);
  delivers = λ d. d;
  callback = refl;
}

pub merge_view-IsNotified :
    (clock : ℕ → ℕ) (incoming : List MemberRecord) (g : GossipMembership)
    → g.has_callback ≡ true
    → IsNotified g (merge_view clock incoming g).0
unfolding merge_view
merge_view-IsNotified clock incoming g set =
    settle-IsNotified g _ set
      (λ h. (take_all-kept merge_known g.self_node_id clock incoming g.member_table false h).0)

take_response-IsNotified :
    (clock : ℕ → ℕ) (response : Option (List MemberRecord)) (g : GossipMembership)
    → g.has_callback ≡ true
    → IsNotified g (take_response clock response g)
take_response-IsNotified clock none g set = IsNotified-refl g
take_response-IsNotified clock (some rs) g set =
    settle-IsNotified g _ set
      (λ h. (take_all-kept round_known g.self_node_id clock rs g.member_table false h).0)

do_gossip_round-IsNotified :
    (exchange : Exchange) (random_int clock : ℕ → ℕ) (g : GossipMembership)
    → g.has_callback ≡ true
    → IsNotified g (do_gossip_round exchange random_int clock g)
unfolding do_gossip_round
do_gossip_round-IsNotified exchange random_int clock g set =
    if_all (IsNotified g) (is_empty (pick_random_peer random_int g)) (λ e. IsNotified-refl g)
      (λ e. take_response-IsNotified clock _ g set)

detect_failures-IsNotified :
    (now : ℕ) (g : GossipMembership) → g.has_callback ≡ true → IsNotified g (detect_failures now g)
unfolding detect_failures
detect_failures-IsNotified now g set =
    settle-IsNotified g _ set
      (detect-IsKept g.self_node_id g.suspect_threshold_ms g.dead_threshold_ms now g.member_table)

-- A heartbeat changes no status.
beat-IsNotified : (now : ℕ) (g : GossipMembership) → IsNotified g (at_self (beat now) g)
beat-IsNotified now g = by_entry (find g.self_node_id g.member_table) refl
  where
    by_entry :
        (o : Option MemberEntry)
        → find g.self_node_id g.member_table ≡ o
        → IsNotified g (elim o [
          | none ↦ g
          | some e ↦ record g { member_table = put g.self_node_id (beat now e) g.member_table }
        ])
    by_entry none missing = IsNotified-refl g
    by_entry (some e) found = record {
      heard = inr (
        current_alive-put g.self_node_id e (beat now e) g.member_table [] found refl,
        refl,
        refl,
      );
      delivers = λ d. d;
      callback = refl;
    }

after_beat : ℕ → ℕ → GossipMembership → GossipMembership
after_beat now later g = detect_failures later (at_self (beat now) g)

after_beat-IsNotified :
    (now later : ℕ) (g : GossipMembership)
    → g.has_callback ≡ true
    → IsNotified g (after_beat now later g)
unfolding after_beat
after_beat-IsNotified now later g set =
    IsNotified-trans g (at_self (beat now) g) _ (beat-IsNotified now g) (
      detect_failures-IsNotified later (at_self (beat now) g)
        ((beat-IsNotified now g).callback ∙ set))

-- In a round of the loop of a node with a callback, whatever a peer answers: after the round the
-- callback knows the live members of the table, or the round changed neither them nor what the
-- callback knows; and what is remembered as told is still what the callback was given last.
pub gossip_tick-IsNotified :
    (exchange : Exchange) (random_int clock : ℕ → ℕ) (g : GossipMembership)
    → g.has_callback ≡ true
    → IsNotified g (gossip_tick exchange random_int clock g)
unfolding gossip_tick after_beat
gossip_tick-IsNotified exchange random_int clock g set =
    if_all (IsNotified g) (not g.running) (λ e. IsNotified-refl g)
      (λ e. IsNotified-trans g (after_beat (clock 0) (clock 1) g) _ first (
        do_gossip_round-IsNotified exchange random_int (λ i. clock (suc (suc i))) _
          (first.callback ∙ set)))
  where
    first : IsNotified g (after_beat (clock 0) (clock 1) g)
    first = after_beat-IsNotified (clock 0) (clock 1) g set
