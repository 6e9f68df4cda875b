-- ===== src/Gossip/SameSet.antt =====
-- `std::set<int>` as src/GossipMembership.cpp uses it: the ids in ascending order, so that two sets
-- with the same members are the same list.
use mathlib.Core.Path.{subst}
use hpe_distributed_key_valu.Prelude.{
  ◌≡◌, refl, sym, ap, ◌∙◌, Bool, true, false, ◌||◌, List, [], ◌∷◌, Option, none, some, arith, All,
  if◌then◌else◌, ℤ, ltb_ℤ, ◌==ℤ◌, ==ℤ_iff, ==ℤ_refl, Bool-cases, inl, inr, any,
}
use hpe_distributed_key_valu.Gossip.State.{
  MemberEntry, MemberTable, find, set_insert, is_alive, current_alive,
}
use hpe_distributed_key_valu.Gossip.Alive.{All-set_insert}
use hpe_distributed_key_valu.Gossip.Shape.{IsTable}
use hpe_distributed_key_valu.Gossip.Versions.{version_of, known}

abbrev IsAscending : List ℤ → Type 0
IsAscending [] = Unit
IsAscending (x ∷ xs) = All (λ y. ltb_ℤ x y ≡ true) xs × IsAscending xs

-- Whether the set has the id.
abbrev pub has : ℤ → List ℤ → Bool
has id = any (λ x. x ==ℤ id)

-- Whether the table has the id as a live member.
abbrev pub lives : Option MemberEntry → Bool
lives none = false
lives (some e) = is_alive e.info.status

less_trans : (x y z : ℤ) → ltb_ℤ x y ≡ true → ltb_ℤ y z ≡ true → ltb_ℤ x z ≡ true
less_trans x y z h k = ground arith

less_of : (x id : ℤ) → ltb_ℤ x id ≡ false → (x ==ℤ id) ≡ false → ltb_ℤ id x ≡ true
less_of x id h k = ground arith

All-less :
    (x y : ℤ) (zs : List ℤ)
    → ltb_ℤ x y ≡ true
    → All (λ z. ltb_ℤ y z ≡ true) zs
    → All (λ z. ltb_ℤ x z ≡ true) zs
All-less x y [] h hs = tt
All-less x y (z ∷ zs) h hs = (less_trans x y z h hs.0, All-less x y zs h hs.1)

set_insert-IsAscending : (id : ℤ) (ids : List ℤ) → IsAscending ids → IsAscending (set_insert id ids)
unfolding set_insert
set_insert-IsAscending id [] h = (tt, tt)
set_insert-IsAscending id (x ∷ xs) h = elim (Bool-cases (ltb_ℤ x id)) [
  | inl less ↦
      rw less
        (All-set_insert (λ y. ltb_ℤ x y ≡ true) id xs less h.0, set_insert-IsAscending id xs h.1)
  | inr more ↦ elim (Bool-cases (x ==ℤ id)) [
    | inl same ↦ rw (more, same) h
    | inr other ↦
        rw (more, other)
          ((less_of x id more other, All-less id x xs (less_of x id more other) h.0), h)
  ]
]

has-set_insert : (j id : ℤ) (ids : List ℤ) → has j (set_insert id ids) ≡ (id ==ℤ j || has j ids)
unfolding set_insert
has-set_insert j id [] = refl
has-set_insert j id (x ∷ xs) = ground (arith, has-set_insert j id xs, ==ℤ_iff x id)

current_alive-IsAscending :
    (t : MemberTable) (ids : List ℤ) → IsAscending ids → IsAscending (current_alive t ids)
unfolding current_alive
current_alive-IsAscending [] ids h = h
current_alive-IsAscending ((id, e) ∷ t) ids h = elim (Bool-cases (is_alive e.info.status)) [
  | inl live ↦ rw live (current_alive-IsAscending t _ (set_insert-IsAscending id ids h))
  | inr gone ↦ rw gone (current_alive-IsAscending t ids h)
]

pub has-current_alive :
    (j : ℤ) (t : MemberTable) (ids : List ℤ)
    → IsTable t
    → has j (current_alive t ids) ≡ (has j ids || lives (find j t))
unfolding current_alive find
has-current_alive j [] ids shape = ground arith
has-current_alive j ((id, e) ∷ t) ids shape =
    has-current_alive j t (if is_alive e.info.status then set_insert id ids else ids) shape.1.1
    ∙ ground (arith, has-set_insert j id ids, ==ℤ_iff id j, shape.1.0)

less_apart : (x : ℤ) (ys : List ℤ) → All (λ y. ltb_ℤ x y ≡ true) ys → has x ys ≡ false
less_apart x [] h = refl
less_apart x (y ∷ ys) h = ground (arith, less_apart x ys h.1, h.0)

has_self : (x : ℤ) (xs : List ℤ) → has x (x ∷ xs) ≡ true
has_self x xs = rw (==ℤ_refl x) refl

-- The least of one set is not below that of a set with the same members.
not_below :
    (x y : ℤ) (xs ys : List ℤ)
    → IsAscending (y ∷ ys)
    → has x (x ∷ xs) ≡ has x (y ∷ ys)
    → ltb_ℤ x y ≡ false
not_below x y xs ys b same = elim (Bool-cases (ltb_ℤ x y)) [
  | inl below ↦
      absurd (
        cc
          (sym (has_self x xs) ∙ (same ∙ less_apart x (y ∷ ys) (below, All-less x y ys below b.0))))
  | inr not_less ↦ not_less
]

neither_below : (x y : ℤ) → ltb_ℤ x y ≡ false → ltb_ℤ y x ≡ false → x ≡ y
neither_below x y h k = ground arith

same_members_tail :
    (x : ℤ) (xs ys : List ℤ)
    → IsAscending (x ∷ xs)
    → IsAscending (x ∷ ys)
    → ((j : ℤ) → has j (x ∷ xs) ≡ has j (x ∷ ys))
    → (j : ℤ) → has j xs ≡ has j ys
same_members_tail x xs ys a b same j = elim (Bool-cases (x ==ℤ j)) [
  | inl first ↦
      let e = (==ℤ_iff x j).0 first in rw (← e) (less_apart x xs a.0 ∙ sym (less_apart x ys b.0))
  | inr later ↦ ground (arith, later, same j)
]

pub same_members :
    (xs ys : List ℤ) → IsAscending xs → IsAscending ys → ((j : ℤ) → has j xs ≡ has j ys) → xs ≡ ys
same_members [] [] a b same = refl
same_members [] (y ∷ ys) a b same = absurd (cc (same y ∙ has_self y ys))
same_members (x ∷ xs) [] a b same = absurd (cc (sym (has_self x xs) ∙ same x))
same_members (x ∷ xs) (y ∷ ys) a b same =
    let e =
      neither_below x y (not_below x y xs ys b (same x)) (not_below y x ys xs a (sym (same y))) in
    let tails =
      same_members_tail x xs ys a (subst (λ z. IsAscending (z ∷ ys)) (sym e) b)
        (λ j. same j ∙ ap (λ z. has j (z ∷ ys)) (sym e)) in
    ap (◌∷◌ x) (same_members xs ys a.1 b.1 tails) ∙ ap (λ z. z ∷ ys) e

-- Two tables that have the same generation, heartbeat and status of every member have the same live members.
lives-known : (o p : Option MemberEntry) → version_of o ≡ version_of p → lives o ≡ lives p
lives-known none none h = refl
lives-known none (some e) h = absurd (cc)
lives-known (some e) none h = absurd (cc)
lives-known (some e) (some d) h = ground (arith, h)

pub same_alive :
    (t u : MemberTable)
    → IsTable t
    → IsTable u
    → ((id : ℤ) → known id t ≡ known id u)
    → current_alive t [] ≡ current_alive u []
same_alive t u shape shape' same =
    same_members (current_alive t []) (current_alive u []) (current_alive-IsAscending t [] tt)
      (current_alive-IsAscending u [] tt)
      (λ j.
        has-current_alive j t [] shape
        ∙ (lives-known (find j t) (find j u) (same j) ∙ sym (has-current_alive j u [] shape')))
