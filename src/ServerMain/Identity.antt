-- ===== src/ServerMain/Identity.antt =====
-- `findNodeId` of src/main_server.cpp.
use mathlib.Core.Path.{subst}
use hpe_distributed_key_valu.Prelude.{
  ℕ, zero, suc, ◌+◌, ◌<◌, ◌≡◌, ◌≢◌, refl, sym, ap, ◌∙◌, ◌⊎◌, inl, inr, Bool, true, false, ◌&&◌, [],
  ◌∷◌, ◌++◌, Option, none, some, ◌==◌, if◌then◌else◌, Text, text_eq, text_eq_refl, text_eq→≡, ℤ,
  pos, negsuc, arith,
}
use hpe_distributed_key_valu.Decimal.{to_string}
use hpe_distributed_key_valu.Config.{Json, bind, read_count, get_endpoint}
use hpe_distributed_key_valu.ServerMain.{split_colon, is_endpoint_of, find_from, find_node_id}

-- No colon is in the text.
abbrev pub HasNoColon : Text → Type 0
HasNoColon [] = Unit
HasNoColon (c ∷ s) = ((c == b':') ≡ false) × HasNoColon s

split-colon :
    (ip rest : Text) → HasNoColon ip → split_colon (ip ++ b':' ∷ rest) ≡ some (ip, b':' ∷ rest)
unfolding split_colon
split-colon [] rest h = refl
split-colon (c ∷ ip) rest h = rw (h.0, split-colon ip rest h.1) refl

-- The parts are those of the text.
abbrev IsSplitOf : Text → Option (Text × Text) → Type 0
IsSplitOf ep none = Unit
IsSplitOf ep (some p) = ep ≡ p.0 ++ p.1

split-IsSplitOf : (ep : Text) → IsSplitOf ep (split_colon ep)
unfolding split_colon
split-IsSplitOf [] = tt
split-IsSplitOf (c ∷ s) = by_later (c == b':') (split_colon s) (split-IsSplitOf s)
  where
    by_later :
        (here : Bool) (later : Option (Text × Text))
        → IsSplitOf s later
        → IsSplitOf
            (c ∷ s)
            (if here then some ([], c ∷ s) else bind later (λ p. some (c ∷ p.0, p.1)))
    by_later true later h = refl
    by_later false none h = tt
    by_later false (some p) h = ap (λ (t : Text). c ∷ t) h

module _ (local_ip port_str : Text) where
  abbrev Matches : Text → Type 0
  Matches ep = is_endpoint_of local_ip port_str (split_colon ep) ≡ true

  matching : (ep : Text) → Matches ep → ep ≡ local_ip ++ port_str
  matching ep h = by_split (split_colon ep) (split-IsSplitOf ep) h
    where
      by_split :
          (o : Option (Text × Text))
          → IsSplitOf ep o
          → is_endpoint_of local_ip port_str o ≡ true
          → ep ≡ local_ip ++ port_str
      by_split none i h = absurd (cc)
      by_split (some (a, b)) i h =
          i
          ∙ (ap (λ (t : Text). t ++ b)
                (text_eq→≡ a local_ip (both (text_eq a local_ip) (text_eq b port_str) h).0)
              ∙ ap (λ (t : Text). local_ip ++ t)
                  (text_eq→≡ b port_str (both (text_eq a local_ip) (text_eq b port_str) h).1))
        where
          both : (x y : Bool) → (x && y) ≡ true → (x ≡ true) × (y ≡ true)
          both true true e = (refl, refl)
          both true false e = absurd (cc)
          both false y e = absurd (cc)

plus_zero : (i : ℕ) → i + 0 ≡ i
plus_zero i = omega arith

plus_suc : (i m : ℕ) → i + suc m ≡ suc i + m
plus_suc i m = omega arith

module _ (J : Json) (config : J.Value) (local_ip : Text) (port : ℤ) (h : HasNoColon local_ip) where
  abbrev pub own_endpoint : Text
  own_endpoint = local_ip ++ b':' ∷ to_string port

  matches_own : is_endpoint_of local_ip (b':' ∷ to_string port) (split_colon own_endpoint) ≡ true
  matches_own =
      rw
        (
          split-colon local_ip (to_string port) h,
          text_eq_refl local_ip,
          text_eq_refl (to_string port),
        )
        refl

  mismatch :
      (ep : Text)
      → is_endpoint_of local_ip (b':' ∷ to_string port) (split_colon ep) ≡ false
      → ep ≢ own_endpoint
  mismatch ep off same = absurd (
      cc (
        sym off
        ∙ (ap (λ (t : Text). is_endpoint_of local_ip (b':' ∷ to_string port) (split_colon t)) same
            ∙ matches_own)))

  module _ (endpoint : ℕ → Text) where
    -- The id is that of the first endpoint that is the server's among the `n` from `i`, or -1.
    abbrev pub IsFirst : ℕ → ℕ → Option ℤ → Type 0
    IsFirst i n r =
        ((j : ℕ) × (j < n)
          × (r ≡ some (pos (i + j)))
          × (endpoint (i + j) ≡ own_endpoint)
          × ((m : ℕ) → m < j → endpoint (i + m) ≢ own_endpoint))
        ⊎ ((r ≡ some (negsuc 0)) × ((m : ℕ) → m < n → endpoint (i + m) ≢ own_endpoint))

    -- One endpoint that is not the server's before.
    later-IsFirst :
        (i n : ℕ) (r : Option ℤ)
        → endpoint i ≢ own_endpoint
        → IsFirst (suc i) n r
        → IsFirst i (suc n) r
    later-IsFirst i n r off f = by_place f
      where
        earlier :
            (k : ℕ)
            → ((m : ℕ) → m < k → endpoint (suc i + m) ≢ own_endpoint)
            → (m : ℕ) → m < suc k
            → endpoint (i + m) ≢ own_endpoint
        earlier k before zero lt same = off (ap endpoint (omega arith) ∙ same)
        earlier k before (suc m) lt same = before m (omega arith) (ap endpoint (omega arith) ∙ same)

        by_place : IsFirst (suc i) n r → IsFirst i (suc n) r
        by_place (inl (j, lt, e, here, before)) = inl (
          suc j,
          omega arith,
          e ∙ ap (λ (t : ℕ). some (pos t)) (omega arith),
          ap endpoint (omega arith) ∙ here,
          earlier j before,
        )
        by_place (inr (e, before)) = inr (e, earlier n before)

    abbrev pub IsKnown : ℕ → Type 0
    IsKnown i = get_endpoint J (pos i) config ≡ some (endpoint i)

    find-IsFirst :
        (n i : ℕ)
        → ((m : ℕ) → m < n → IsKnown (i + m))
        → IsFirst i n (find_from J config local_ip (b':' ∷ to_string port) n i)
    unfolding find_from
    find-IsFirst zero i known = inr (refl, λ m lt same. absurd (omega arith))
    find-IsFirst (suc n) i known = rw (subst IsKnown (plus_zero i) (known 0 (omega arith))) (
        by_match (is_endpoint_of local_ip (b':' ∷ to_string port) (split_colon (endpoint i))) refl (
          find-IsFirst n (suc i)
            (λ m lt. subst IsKnown (plus_suc i m) (known (suc m) (omega arith)))))
      where
        by_match :
            (b : Bool)
            → is_endpoint_of local_ip (b':' ∷ to_string port) (split_colon (endpoint i)) ≡ b
            → IsFirst (suc i) n (find_from J config local_ip (b':' ∷ to_string port) n (suc i))
            → IsFirst i (suc n) (
                if b
                then some (pos i)
                else find_from J config local_ip (b':' ∷ to_string port) n (suc i))
        by_match true e f = inl (
          0,
          omega arith,
          ap (λ (t : ℕ). some (pos t)) (sym (plus_zero i)),
          ap endpoint (plus_zero i) ∙ matching local_ip (b':' ∷ to_string port) (endpoint i) e,
          λ m lt same. absurd (omega arith),
        )
        by_match false e f = later-IsFirst i n _ (mismatch (endpoint i) e) f

    -- `findNodeId` gives the least id whose endpoint in the configuration is the server's address and
    -- port, written with a colon, and -1 where there is none, if every id below the count has an
    -- endpoint and the address has no colon.
    pub find_node_id-IsFirst :
        (n : ℕ)
        → read_count J config ≡ some (pos n)
        → ((i : ℕ) → i < n → IsKnown i)
        → IsFirst 0 n (find_node_id J config local_ip port)
    unfolding find_node_id
    find_node_id-IsFirst n count known =
        rw count (find-IsFirst n 0 (λ m lt. subst IsKnown (omega arith) (known m lt)))
