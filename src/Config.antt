-- ===== src/Config.antt =====
-- src/config.cpp and include/config.hpp: the configuration that a node reads.
-- nlohmann::json is third-party code: `Json` is what the file uses of it, where `none` is an exception
-- that the call throws.
pub mod Size
use hpe_distributed_key_valu.Prelude.{
  ℕ, zero, suc, ◌+◌, ◌-◌, ◌*◌, ◌%◌, ◌^◌, Bool, true, false, List, [], ◌∷◌, ◌++◌, Option, none, some,
  if◌then◌else◌, Text, codes, ℤ, pos, negsuc,
}
use hpe_distributed_key_valu.Decimal.{to_string}

pub record Json : Type 1 where
  pub Value : Type 0
  pub at : Text → Value → Option Value
  pub subscript : Text → Value → Value
  pub contains : Text → Value → Bool
  pub get_int : Value → Option ℤ
  pub get_uint16 : Value → Option ℕ
  pub get_string : Value → Option Text
  pub value_int : Text → ℤ → Value → Option ℤ
  pub items : Value → List Value

pub record GossipConfig : Type 0 where
  pub interval_ms : ℤ
  pub suspect_threshold_ms : ℤ
  pub dead_threshold_ms : ℤ
  pub seed_nodes : List Text

-- A conversion of `int` to `size_t`, and a product of the latter.
abbrev pub size_mod : ℕ
size_mod = 2 ^ 64

abbrev pub to_size : ℤ → ℕ
to_size (pos n) = n
to_size (negsuc n) = size_mod - suc n

abbrev pub bind {ℓ κ} : {A : Type ℓ} {B : Type κ} → Option A → (A → Option B) → Option B
bind none f = none
bind (some a) f = f a

-- `std::ifstream` and `>>`: `none` where the file does not open, `some none` where it does not parse.
pub data Opened (A : Type 0) : Type 0 where
  loaded : A → Opened A
  could_not_open : Text → Opened A
  parse_error : Opened A

module _ (J : Json) where
  open J use {Value}

  -- `Config` is its `config_json`.
  abbrev pub construct : (Text → Option (Option Value)) → Text → Opened Value
  construct read_file filename = elim (read_file filename) [
    | none ↦ could_not_open (codes "Could not open config file: " ++ filename)
    | some none ↦ parse_error
    | some (some config) ↦ loaded config
  ]

  unfoldable pub read_provider_id : Value → Option ℕ
  read_provider_id config = bind (J.at (codes "provider_id") config) J.get_uint16

  unfoldable pub read_protocol : Value → Option Text
  read_protocol config = bind (J.at (codes "protocol") config) J.get_string

  unfoldable pub read_count : Value → Option ℤ
  read_count config = bind (J.at (codes "count_of_node") config) J.get_int

  unfoldable pub get_endpoint : ℤ → Value → Option Text
  get_endpoint node_id config =
      bind (J.at (codes "ip_addresses") config)
        (λ ip_map. bind (J.at (to_string node_id) ip_map) J.get_string)

  unfoldable pub read_size : Value → Option ℕ
  read_size config = bind (J.at (codes "size") config) (λ v.
      bind (J.get_int v)
        (λ size_in_mb. some (to_size size_in_mb * 1024 % size_mod * 1024 % size_mod)))

  unfoldable pub read_ip : Value → Option Text
  read_ip config = J.get_string (J.subscript (codes "local_ip") config)

  -- The loop that fills `seed_nodes`.
  unfoldable pub seed_texts : List Value → Option (List Text)
  seed_texts [] = some []
  seed_texts (v ∷ vs) =
      bind (J.get_string v) (λ s. bind (seed_texts vs) (λ seeds. some (s ∷ seeds)))

  abbrev pub seeds_of : Value → Option (List Text)
  seeds_of g =
      if J.contains (codes "seed_nodes") g
      then bind (J.at (codes "seed_nodes") g) (λ seeds. seed_texts (J.items seeds))
      else some []

  unfoldable pub read_gossip_config : Value → Option GossipConfig
  read_gossip_config config =
      if J.contains (codes "gossip") config
      then bind (J.at (codes "gossip") config) (λ g.
        bind (J.value_int (codes "interval_ms") (pos 1_000) g) (λ interval.
          bind (J.value_int (codes "suspect_threshold_ms") (pos 3_000) g) (λ suspect.
            bind (J.value_int (codes "dead_threshold_ms") (pos 10_000) g) (λ dead.
              bind (seeds_of g) (λ seeds. some (record {
                interval_ms = interval;
                suspect_threshold_ms = suspect;
                dead_threshold_ms = dead;
                seed_nodes = seeds;
              }))))))
      else some (record {
        interval_ms = pos 1_000;
        suspect_threshold_ms = pos 3_000;
        dead_threshold_ms = pos 10_000;
        seed_nodes = [];
      })
