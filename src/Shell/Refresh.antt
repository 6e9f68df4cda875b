-- ===== src/Shell/Refresh.antt =====
-- The refresh of the membership in src/main_client.cpp.
use hpe_distributed_key_valu.Prelude.{
  ℕ, suc, ◌≡◌, refl, ap, ◌∙◌, ◌⊎◌, Bool, true, false, not, inl, inr, List, [], ◌∷◌, Option, none,
  some, is_empty, if◌then◌else◌, Text,
}
use hpe_distributed_key_valu.Gossip.{MemberRecord}
use hpe_distributed_key_valu.Store.{Segment}
use hpe_distributed_key_valu.Client.{IkvClient}
use hpe_distributed_key_valu.Distributor.{
  Endpoints, live_nodes, same_nodes, rebuild_ring, default_virtual_nodes, take_membership,
  membership_answer, fetch_membership_from_server, get_all_endpoints,
}
use hpe_distributed_key_valu.Shell.{Dist, refresh_from, refresh}

module _ (S : Segment) (C : IkvClient) where
  -- The nodes, the ring and the store are the same.
  pub record IsUnchanged (d e : Dist S C) : Type 0 where
    pub nodes : e.node_to_ip ≡ d.node_to_ip
    pub count : e.count_of_node ≡ d.count_of_node
    pub ring : e.hash_ring ≡ d.hash_ring
    pub store : e.kv ≡ d.kv

  IsUnchanged-trans : (d e f : Dist S C) → IsUnchanged d e → IsUnchanged e f → IsUnchanged d f
  IsUnchanged-trans d e f a b = record {
    nodes = b.nodes ∙ a.nodes;
    count = b.count ∙ a.count;
    ring = b.ring ∙ a.ring;
    store = b.store ∙ a.store;
  }

  abbrev IsTry : Dist S C → Bool × Dist S C → Type 0
  IsTry d (true, e) = e.kv ≡ d.kv
  IsTry d (false, e) = IsUnchanged d e

  take-IsTry :
      (d e : Dist S C) (live : Endpoints) → IsUnchanged d e → IsTry d (take_membership S C live e)
  unfolding rebuild_ring
  take-IsTry d e live h = by_test (is_empty live) (same_nodes live e.node_to_ip)
    where
      by_test :
          (b c : Bool)
          → IsTry d (
              if b
              then (false, e)
              else if c
              then (true, e)
              else (true, rebuild_ring S C live default_virtual_nodes e))
      by_test true c = h
      by_test false true = h.store
      by_test false false = h.store

  answer-IsTry :
      (d : Dist S C) (r : Option (List MemberRecord) × C.World)
      → IsTry d (membership_answer S C d r)
  answer-IsTry d (none, w) = record { nodes = refl; count = refl; ring = refl; store = refl }
  answer-IsTry d (some members, w) =
      take-IsTry d (record d { world = w }) (live_nodes members [])
        (record { nodes = refl; count = refl; ring = refl; store = refl })

  fetch-IsTry : (ep : Text) (d : Dist S C) → IsTry d (fetch_membership_from_server S C ep d)
  unfolding fetch_membership_from_server
  fetch-IsTry ep d = answer-IsTry d (C.get_membership ep d.world)

  IsTry-after : (d e : Dist S C) (q : Bool × Dist S C) → IsUnchanged d e → IsTry e q → IsTry d q
  IsTry-after d e (true, f) a t = t ∙ a.store
  IsTry-after d e (false, f) a t = IsUnchanged-trans d e f a t

  module _ (active : ℕ → Bool) where
    -- What follows the answer of one endpoint.
    abbrev continued : ℕ → List Text → Bool × Dist S C → Bool × Dist S C
    continued i eps (fetched, e) = elim fetched [
      | true ↦ (true, e)
      | false ↦ refresh_from S C active (suc i) eps e
    ]

    continued-IsTry :
        (i : ℕ) (eps : List Text) (d : Dist S C) (r : Bool × Dist S C)
        → IsTry d r
        → ((e : Dist S C) → IsTry e (refresh_from S C active (suc i) eps e))
        → IsTry d (continued i eps r)
    continued-IsTry i eps d (true, e) t ih = t
    continued-IsTry i eps d (false, e) t ih = IsTry-after d e _ t (ih e)

    refresh_from-IsTry :
        (i : ℕ) (eps : List Text) (d : Dist S C) → IsTry d (refresh_from S C active i eps d)
    unfolding refresh_from
    refresh_from-IsTry i [] d = record { nodes = refl; count = refl; ring = refl; store = refl }
    refresh_from-IsTry i (ep ∷ eps) d = by_active (not (active i)) (
        continued-IsTry i eps d (fetch_membership_from_server S C ep d) (fetch-IsTry ep d)
          (refresh_from-IsTry (suc i) eps))
      where
        by_active :
            (stop : Bool)
            → IsTry d (continued i eps (fetch_membership_from_server S C ep d))
            → IsTry d (
                if stop
                then (false, d)
                else continued i eps (fetch_membership_from_server S C ep d))
        by_active true t = record { nodes = refl; count = refl; ring = refl; store = refl }
        by_active false t = t

    -- A refresh that reports no success has left the nodes, their number, the ring and the store as
    -- they were, however many servers it asked and whenever the client ended it.
    pub failed_refresh-IsUnchanged :
        (d : Dist S C) → (refresh S C active d).0 ≡ false → IsUnchanged d (refresh S C active d).1
    unfolding refresh
    failed_refresh-IsUnchanged d e =
        by_result (refresh_from S C active 0 (get_all_endpoints S C d) d)
          (refresh_from-IsTry 0 (get_all_endpoints S C d) d) e
      where
        by_result : (r : Bool × Dist S C) → IsTry d r → r.0 ≡ false → IsUnchanged d r.1
        by_result (true, f) t e = absurd (cc)
        by_result (false, f) t e = t

  -- The server at the endpoint answers in every world, and names a live node.
  abbrev pub Answers : Text → Type 0
  Answers ep =
      (w : C.World)
      → (members : List MemberRecord) × ((C.get_membership ep w).0 ≡ some members)
        × (is_empty (live_nodes members []) ≡ false)

  abbrev pub SomeAnswers : List Text → Type 0
  SomeAnswers [] = ⊥
  SomeAnswers (ep ∷ eps) = Answers ep ⊎ SomeAnswers eps

  taken :
      (live : Endpoints) (d : Dist S C)
      → is_empty live ≡ false
      → (take_membership S C live d).0 ≡ true
  taken live d e =
      rw e
        (by_same (same_nodes live d.node_to_ip) d (rebuild_ring S C live default_virtual_nodes d))
    where
      by_same :
          (b : Bool) (x y : Dist S C)
          → (if◌then◌else◌ {A = Bool × Dist S C} b (true, x) (true, y)).0 ≡ true
      by_same true x y = refl
      by_same false x y = refl

  answered_try :
      (members : List MemberRecord) (d : Dist S C) (r : Option (List MemberRecord) × C.World)
      → r.0 ≡ some members
      → is_empty (live_nodes members []) ≡ false
      → (membership_answer S C d r).0 ≡ true
  answered_try members d (none, w) e live = absurd (cc)
  answered_try members d (some ms, w) e live =
      taken (live_nodes ms []) (record d { world = w })
        (ap (λ m. is_empty (live_nodes m [])) (listed members ms e) ∙ live)
    where
      listed : (m n : List MemberRecord) → some n ≡ some m → n ≡ m
      listed m n h = cc

  answered_fetch :
      (ep : Text) (d : Dist S C) → Answers ep → (fetch_membership_from_server S C ep d).0 ≡ true
  unfolding fetch_membership_from_server
  answered_fetch ep d a =
      answered_try (a d.world).0 d (C.get_membership ep d.world) (a d.world).1 (a d.world).2

  always : ℕ → Bool
  always i = true

  found_answer :
      (i : ℕ) (eps : List Text) (r : Bool × Dist S C)
      → (r.0 ≡ true) ⊎ ((e : Dist S C) → (refresh_from S C always (suc i) eps e).0 ≡ true)
      → (continued always i eps r).0 ≡ true
  found_answer i eps (true, e) h = refl
  found_answer i eps (false, e) (inl h) = absurd (cc)
  found_answer i eps (false, e) (inr h) = h e

  refresh_from_succeeds :
      (i : ℕ) (eps : List Text) (d : Dist S C)
      → SomeAnswers eps
      → (refresh_from S C always i eps d).0 ≡ true
  unfolding refresh_from always
  refresh_from_succeeds i [] d h = absurd h
  refresh_from_succeeds i (ep ∷ eps) d (inl a) =
      found_answer i eps (fetch_membership_from_server S C ep d) (inl (answered_fetch ep d a))
  refresh_from_succeeds i (ep ∷ eps) d (inr h) =
      found_answer i eps (fetch_membership_from_server S C ep d)
        (inr (λ e. refresh_from_succeeds (suc i) eps e h))

  -- A refresh that the client does not end succeeds if one of the servers that it knows answers with a
  -- live node, whatever servers it has to ask before.
  pub refresh_succeeds :
      (d : Dist S C) → SomeAnswers (get_all_endpoints S C d) → (refresh S C (λ i. true) d).0 ≡ true
  unfolding refresh always
  refresh_succeeds d h = refresh_from_succeeds 0 (get_all_endpoints S C d) d h
