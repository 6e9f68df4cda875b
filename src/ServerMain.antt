-- ===== src/ServerMain.antt =====
-- src/main_server.cpp: the settings and the identity of a server, the callback that rebuilds its
-- ring, and what it does before it ends.
-- The arithmetic on `double` and the text of `hostname -I` are parameters.
pub mod Identity
pub mod Node
pub mod Rings
pub mod Departure
pub mod Signals
use hpe_distributed_key_valu.Prelude.{
  ℕ, zero, suc, ◌+◌, ◌-◌, ◌*◌, ◌==◌, Bool, true, false, ◌&&◌, ◌||◌, List, [], ◌∷◌, ◌++◌, Option,
  none, some, leb, ltb_ℤ, if◌then◌else◌, Text, codes, text_eq, ℤ, pos, negsuc,
}
use hpe_distributed_key_valu.Decimal.{to_string}
use hpe_distributed_key_valu.Decimal.Parse.{Number, number, stoi}
use hpe_distributed_key_valu.Config.{Json, bind, read_count, get_endpoint}
use hpe_distributed_key_valu.Ring.{Token, rebuild}
use hpe_distributed_key_valu.Store.{StorageMode, memory, persistent}

-- `std::stod`, the product with a `size_t`, and the conversion to `size_t`.
pub record Doubles : Type 1 where
  pub Double : Type 0
  pub stod : Text → Option Double
  pub times : Double → ℕ → Double
  pub to_size_t : Double → ℕ

abbrev pub to_upper : ℕ → ℕ
to_upper c = if leb 97 c && leb c 122 then c - 32 else c

abbrev pub to_lower : ℕ → ℕ
to_lower c = if leb 65 c && leb c 90 then c + 32 else c

abbrev pub each_char : (ℕ → ℕ) → Text → Text
each_char f [] = []
each_char f (c ∷ s) = f c ∷ each_char f s

abbrev pub back : Text → Option ℕ
back [] = none
back (c ∷ []) = some c
back (c ∷ d ∷ s) = back (d ∷ s)

abbrev pub pop_back : Text → Text
pop_back [] = []
pop_back (c ∷ []) = []
pop_back (c ∷ d ∷ s) = c ∷ pop_back (d ∷ s)

abbrev pub kb : ℕ
kb = 1024

abbrev pub mb : ℕ
mb = 1024 * 1024

abbrev pub gb : ℕ
gb = 1024 * (1024 * 1024)

module _ (F : Doubles) where
  -- The `switch` on the unit; `unit` is M where the text has none.
  abbrev pub scaled : ℕ → F.Double → ℕ
  scaled unit num_value =
      if unit == b'K'
      then F.to_size_t (F.times num_value kb)
      else if unit == b'G'
      then F.to_size_t (F.times num_value gb)
      else F.to_size_t (F.times num_value mb)

  abbrev pub is_unit : ℕ → Bool
  is_unit c = c == b'K' || (c == b'M' || c == b'G')

  -- The size of the default where `stod` throws.
  abbrev pub size_or_default : ℕ → Option F.Double → ℕ
  size_or_default unit none = 100 * mb
  size_or_default unit (some v) = scaled unit v

  abbrev pub with_last : Text → Option ℕ → Option ℕ
  with_last num_part none = none
  with_last num_part (some c) = some (
      if is_unit c
      then size_or_default c (F.stod (pop_back num_part))
      else size_or_default b'M' (F.stod num_part))

  -- `none` is the undefined `back()` of an empty text.
  unfoldable pub parse_memory_size : Text → Option ℕ
  parse_memory_size size_str =
      let num_part = each_char to_upper size_str in with_last num_part (back num_part)

-- `ep.find(':')`, with the text before it and the text from it on.
unfoldable pub split_colon : Text → Option (Text × Text)
split_colon [] = none
split_colon (c ∷ s) =
    let later = split_colon s in
    if c == b':' then some ([], c ∷ s) else bind later (λ p. some (c ∷ p.0, p.1))

abbrev pub is_endpoint_of : Text → Text → Option (Text × Text) → Bool
is_endpoint_of local_ip port_str none = false
is_endpoint_of local_ip port_str (some (ep_ip, ep_port)) =
    text_eq ep_ip local_ip && text_eq ep_port port_str

abbrev pub loop_count : ℤ → ℕ
loop_count (pos n) = n
loop_count (negsuc n) = 0

module _ (J : Json) where
  -- The loop, with the rounds that are left and the next id.
  unfoldable pub find_from : J.Value → Text → Text → ℕ → ℕ → Option ℤ
  find_from config local_ip port_str zero i = some (negsuc 0)
  find_from config local_ip port_str (suc left) i = bind (get_endpoint J (pos i) config) (λ ep.
      if is_endpoint_of local_ip port_str (split_colon ep)
      then some (pos i)
      else find_from config local_ip port_str left (suc i))

  unfoldable pub find_node_id : J.Value → Text → ℤ → Option ℤ
  find_node_id config local_ip port =
      let port_str = codes ":" ++ to_string port in
      bind (read_count J config) (λ count. find_from config local_ip port_str (loop_count count) 0)

  -- The node id with which the gossip starts: 0 where no endpoint is the server's.
  unfoldable pub identity : J.Value → Text → ℤ → Option ℤ
  identity config local_ip port =
      bind (find_node_id config local_ip port)
        (λ node_id. some (if ltb_ℤ node_id (pos 0) then pos 0 else node_id))

pub record Settings : Type 0 where
  pub protocol : Text
  pub port : ℤ
  pub mem_size : ℕ
  pub storage_mode : StorageMode

abbrev pub defaults : Settings
defaults = record {
  protocol = codes "ofi+tcp";
  port = pos 8080;
  mem_size = 100 * (1024 * 1024);
  storage_mode = memory;
}

abbrev pub port_or : ℤ → Number → ℤ
port_or old (number port) = port
port_or old failed = old

abbrev pub mode_of : Text → StorageMode
mode_of mode_arg =
    if text_eq (each_char to_lower mode_arg) (codes "persistent") then persistent else memory

-- The arguments that follow the program's name.
unfoldable pub settings_of : (F : Doubles) → List Text → Option Settings
settings_of F [] = some defaults
settings_of F (protocol ∷ []) = some (record defaults { protocol = protocol })
settings_of F (protocol ∷ port ∷ []) =
    some (record defaults { protocol = protocol; port = port_or (pos 8080) (stoi port) })
settings_of F (protocol ∷ port ∷ size ∷ []) = bind (parse_memory_size F size) (λ mem_size.
    some (record {
      protocol = protocol;
      port = port_or (pos 8080) (stoi port);
      mem_size = mem_size;
      storage_mode = memory;
    }))
settings_of F (protocol ∷ port ∷ size ∷ mode ∷ more) = bind (parse_memory_size F size) (λ mem_size.
    some (record {
      protocol = protocol;
      port = port_or (pos 8080) (stoi port);
      mem_size = mem_size;
      storage_mode = mode_of mode;
    }))

-- The text of the command, without the ends of lines, and 127.0.0.1 where it did not run.
unfoldable pub local_ip_of : Option Text → Text
local_ip_of none = codes "127.0.0.1"
local_ip_of (some []) = []
local_ip_of (some (c ∷ s)) = let rest = local_ip_of (some s) in if c == 10 then rest else c ∷ rest

abbrev pub address_of : Settings → Text → Text
address_of settings local_ip =
    settings.protocol ++ (codes "://" ++ (local_ip ++ (codes ":" ++ to_string settings.port)))

-- The callback for a change of the live nodes: the server's ring.
abbrev pub on_change : List (ℤ × Text) → List Token
on_change live = rebuild live (pos 2)
