-- ===== src/Gossip/Alive.antt =====
-- The set of live members that `notifyChange` of src/GossipMembership.cpp computes, and what it keeps
-- of it.
use hpe_distributed_key_valu.Prelude.{
  ◌≡◌, refl, sym, ap, ◌∙◌, true, false, List, [], ◌∷◌, some, arith, All, firsts, Text, ℤ, ltb_ℤ,
  ◌==ℤ◌, ==ℤ_iff, ==ℤ_refl, Bool-cases, inl, inr,
}
use hpe_distributed_key_valu.Gossip.State.{
  MemberEntry, MemberTable, GossipMembership, find, put, set_insert, set_eq, is_alive,
  current_alive, live_endpoints, notify_change,
}

-- The members that a node takes for alive.
abbrev pub alive_set : GossipMembership → List ℤ
alive_set g = current_alive g.member_table []

-- The members of the map that the callback was given last.
abbrev pub announced : List (List (ℤ × Text)) → List ℤ
announced [] = []
announced (live ∷ _) = firsts live

-- The set that is remembered is the set of the table.
abbrev pub IsTold : GossipMembership → Type 0
IsTold g = g.last_alive_set ≡ alive_set g

-- The set that is remembered is the one that the callback has been given.
abbrev pub IsDelivered : GossipMembership → Type 0
IsDelivered g = announced g.delivered ≡ g.last_alive_set

set_eq→≡ : (xs ys : List ℤ) → set_eq xs ys ≡ true → xs ≡ ys
set_eq→≡ [] [] h = refl
set_eq→≡ [] (y ∷ ys) h = absurd (cc)
set_eq→≡ (x ∷ xs) [] h = absurd (cc)
set_eq→≡ (x ∷ xs) (y ∷ ys) h = ground (arith, ==ℤ_iff x y, set_eq→≡ xs ys)

pub All-set_insert {κ} :
    (P : ℤ → Type κ) (id : ℤ) (ids : List ℤ) → P id → All P ids → All P (set_insert id ids)
unfolding set_insert
All-set_insert P id [] h hs = (h, tt)
All-set_insert P id (x ∷ xs) h hs = elim (Bool-cases (ltb_ℤ x id)) [
  | inl less ↦ rw less (hs.0, All-set_insert P id xs h hs.1)
  | inr more ↦ elim (Bool-cases (x ==ℤ id)) [
    | inl same ↦ rw (more, same) hs
    | inr other ↦ rw (more, other) (h, hs)
  ]
]

All-current_alive {κ} :
    (P : ℤ → Type κ) (t : MemberTable) (ids : List ℤ)
    → All (λ p. P p.0) t
    → All P ids
    → All P (current_alive t ids)
unfolding current_alive
All-current_alive P [] ids ht hs = hs
All-current_alive P ((id, e) ∷ t) ids ht hs = elim (Bool-cases (is_alive e.info.status)) [
  | inl lives ↦
      rw lives (All-current_alive P t (set_insert id ids) ht.1 (All-set_insert P id ids ht.0 hs))
  | inr gone ↦ rw gone (All-current_alive P t ids ht.1 hs)
]

abbrev IsFound : MemberTable → ℤ → Type 0
IsFound t id = (e : MemberEntry) × (find id t ≡ some e)

IsFound-cons : (p : ℤ × MemberEntry) (t : MemberTable) (id : ℤ) → IsFound t id → IsFound (p ∷ t) id
unfolding find
IsFound-cons (k, e) t id h = elim (Bool-cases (k ==ℤ id)) [
  | inl same ↦ (e, rw same refl)
  | inr other ↦ (h.0, rw other h.1)
]

All-IsFound : (t : MemberTable) → All (λ p. IsFound t p.0) t
unfolding find
All-IsFound [] = tt
All-IsFound ((k, e) ∷ t) = ((e, rw (==ℤ_refl k) refl), later t (All-IsFound t))
  where
    later : (s : MemberTable) → All (λ p. IsFound t p.0) s → All (λ p. IsFound ((k, e) ∷ t) p.0) s
    later [] h = tt
    later ((j, d) ∷ s) h = (IsFound-cons (k, e) t j h.0, later s h.1)

ids-live_endpoints :
    (ids : List ℤ) (t : MemberTable) → All (IsFound t) ids → firsts (live_endpoints ids t) ≡ ids
unfolding live_endpoints
ids-live_endpoints [] t h = refl
ids-live_endpoints (id ∷ ids) t ((e, found), h) =
    rw (live_endpoints, found) (ap (◌∷◌ id) (ids-live_endpoints ids t h))

pub ids-alive :
    (t : MemberTable) → firsts (live_endpoints (current_alive t []) t) ≡ current_alive t []
ids-alive t =
    ids-live_endpoints (current_alive t []) t
      (All-current_alive (IsFound t) t [] (All-IsFound t) tt)

-- What a call of `notifyChange` does where a callback is set.
pub notify_change-IsTold : (g : GossipMembership) → g.has_callback ≡ true → IsTold (notify_change g)
unfolding notify_change
notify_change-IsTold g h = elim (Bool-cases (set_eq (alive_set g) g.last_alive_set)) [
  | inl same ↦ rw (h, same) (sym (set_eq→≡ _ _ same))
  | inr other ↦ rw (h, other) refl
]

pub notify_change-IsDelivered :
    (g : GossipMembership) → IsDelivered g → IsDelivered (notify_change g)
unfolding notify_change
notify_change-IsDelivered g d = elim (Bool-cases g.has_callback) [
  | inr no_callback ↦ rw no_callback d
  | inl set ↦ elim (Bool-cases (set_eq (alive_set g) g.last_alive_set)) [
    | inl same ↦ rw (set, same) d
    | inr other ↦ rw (set, other) (ids-alive g.member_table)
  ]
]

pub callback-notify_change :
    (g : GossipMembership) → (notify_change g).has_callback ≡ g.has_callback
unfolding notify_change
callback-notify_change g = ground arith

-- A write that keeps the status of an entry that is there.
pub current_alive-put :
    (id : ℤ) (e d : MemberEntry) (t : MemberTable) (ids : List ℤ)
    → find id t ≡ some e
    → d.info.status ≡ e.info.status
    → current_alive (put id d t) ids ≡ current_alive t ids
unfolding find put current_alive
current_alive-put id e d [] ids found same = absurd (cc)
current_alive-put id e d ((k, old) ∷ t) ids found same = elim (Bool-cases (k ==ℤ id)) [
  | inl here' ↦ rw (here', same, status_of here') refl
  | inr apart ↦ rw apart (current_alive-put id e d t _ (sym (skip apart) ∙ found) same)
]
  where
    status_of : (k ==ℤ id) ≡ true → e.info.status ≡ old.info.status
    status_of h = ground (arith, found)

    skip : (k ==ℤ id) ≡ false → find id ((k, old) ∷ t) ≡ find id t
    skip h = rw h refl
