-- ===== src/Tests/Programs.antt =====
-- Instances of the theorems on src/main_server.cpp and src/main_client.cpp.
use hpe_distributed_key_valu.Prelude.{
  ℕ, zero, suc, ◌+◌, ◌*◌, ◌^◌, ◌<◌, ◌≡◌, refl, inl, true, false, List, [], ◌∷◌, ◌++◌, Option, none,
  some, Text, codes, text_eq, if◌then◌else◌, pos, negsuc, arith,
}
use hpe_distributed_key_valu.Decimal.{to_string}
use hpe_distributed_key_valu.Decimal.Parse.{number, stoi}
use hpe_distributed_key_valu.Decimal.RoundTrip.{stoi-to_string}
use hpe_distributed_key_valu.Murmur.{fmix32}
use hpe_distributed_key_valu.Config.{Json, read_count, read_size, get_endpoint}
use hpe_distributed_key_valu.Config.Size.{read_size-bytes_of}
use hpe_distributed_key_valu.ServerMain.{find_node_id}
use hpe_distributed_key_valu.ServerMain.Identity.{HasNoColon, IsFirst, find_node_id-IsFirst}
use hpe_distributed_key_valu.Store.{memory, server}
use hpe_distributed_key_valu.Store.Assoc.{assoc_segment}
use hpe_distributed_key_valu.Store.Boot.{names_of, Boot}
use hpe_distributed_key_valu.Store.Lifecycle.{blank, start_up}
use hpe_distributed_key_valu.Store.Images.{image_segment, Disk, disk_platform}
use hpe_distributed_key_valu.Shell.{parse_command, run_line, refresh_from, refresh}
use hpe_distributed_key_valu.Shell.Words.{words, unwords, parse_command-words}
use hpe_distributed_key_valu.Shell.Commands.{Command, put_pair, spelled, executed, run-executed}
use hpe_distributed_key_valu.Shell.Refresh.{refresh_succeeds}
use hpe_distributed_key_valu.Distributor.{
  get_all_endpoints, fetch_membership_from_server, live_nodes, set_endpoint, strip_protocol,
}
use hpe_distributed_key_valu.Distributor
use hpe_distributed_key_valu.Tests.Requests.{far_client, view_client, built, outside}

negative_number : stoi (to_string (negsuc 41)) ≡ number (negsuc 41)
negative_number = stoi-to_string (negsuc 41) (omega arith)

one_shifted : fmix32 (2 + 3) ≡ fmix32 5
one_shifted = refl

-- A document with three nodes, of which the second is the server. A value is the path to it.
abbrev pub leaf : List Text → Option Text
leaf (top ∷ id ∷ []) =
    if text_eq id (codes "0")
    then some (codes "10.0.0.1:5000")
    else if text_eq id (codes "1")
    then some (codes "10.0.0.2:5000")
    else some (codes "no port")
leaf other = none

abbrev pub document : Json
document = record {
  Value = List Text;
  at = λ key path. some (path ++ key ∷ []);
  subscript = λ key path. path ++ key ∷ [];
  contains = λ key path. false;
  get_int = λ path. some (pos 3);
  get_uint16 = λ path. some 1;
  get_string = leaf;
  value_int = λ key default path. some default;
  items = λ path. [];
}

abbrev pub endpoints : ℕ → Text
endpoints zero = codes "10.0.0.1:5000"
endpoints (suc zero) = codes "10.0.0.2:5000"
endpoints (suc (suc i)) = codes "no port"

three_nodes : read_count document [] ≡ some (pos 3)
unfolding read_count
three_nodes = refl

known_nodes : (i : ℕ) → i < 3 → get_endpoint document (pos i) [] ≡ some (endpoints i)
unfolding get_endpoint to_string
known_nodes zero lt = refl
known_nodes (suc zero) lt = refl
known_nodes (suc (suc zero)) lt = refl
known_nodes (suc (suc (suc i))) lt = absurd (omega arith)

plain_address : HasNoColon (codes "10.0.0.2")
plain_address = (refl, (refl, (refl, (refl, (refl, (refl, (refl, (refl, tt))))))))

find_node_id-IsFirst_example :
    IsFirst document []
      (codes "10.0.0.2")
      (pos 5_000)
      plain_address
      endpoints
      0
      3
      (find_node_id document [] (codes "10.0.0.2") (pos 5_000))
find_node_id-IsFirst_example =
    find_node_id-IsFirst document [] (codes "10.0.0.2") (pos 5_000) plain_address endpoints 3
      three_nodes known_nodes

parse_command-words_example : parse_command (codes "  put 5  a b ") ≡ words (codes "  put 5  a b ")
parse_command-words_example = parse_command-words (codes "  put 5  a b ")

abbrev put_five : Command
put_five = put_pair (pos 5) (codes "a") (codes "b" ∷ [])

run-executed_example :
    run_line assoc_segment far_client (λ i. []) (λ i. i) (unwords (spelled put_five)) outside
    ≡ some (executed assoc_segment far_client put_five outside)
run-executed_example =
    run-executed assoc_segment far_client (λ i. []) (λ i. i) put_five outside
      (omega arith, (refl, (refl, tt)))

no_answer : (refresh assoc_segment far_client (λ i. true) outside).0 ≡ false
unfolding refresh refresh_from get_all_endpoints fetch_membership_from_server
no_answer = refl

refresh_succeeds_example : (refresh assoc_segment view_client (λ i. true) built).0 ≡ true
unfolding live_nodes set_endpoint strip_protocol get_all_endpoints Distributor.construct
refresh_succeeds_example =
    refresh_succeeds assoc_segment view_client built (inl (λ w. (_, refl, refl)))

abbrev pub empty_disk : Disk
empty_disk = record { object = λ n. none; file = λ n. none; listing = [] }

abbrev pub first_boot : Boot image_segment disk_platform
first_boot = record {
  kv = blank image_segment disk_platform 2_000 memory server;
  world = empty_disk;
}

abbrev pub served : Boot image_segment disk_platform
served = (start_up (names_of (to_string (pos 5_000))) 2_000 memory server first_boot).1

read_size-bytes_of_example : read_size document [] ≡ some (3 * 2 ^ 20)
read_size-bytes_of_example =
    read_size-bytes_of document [] (codes "size" ∷ []) (pos 3) refl refl (omega arith)
