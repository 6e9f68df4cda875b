-- ===== src/Tests/Requests.antt =====
-- Instances of the theorems on src/KVDistributor.cpp. The client of the tests keeps one association
-- list for each endpoint, and answers every request from it.
use hpe_distributed_key_valu.Prelude.{
  ◌≡◌, refl, ◌⊎◌, true, false, List, [], ◌∷◌, none, some, Text, codes, c_str, text_eq,
  if◌then◌else◌, ℤ, pos, ◌==ℤ◌,
}
use hpe_distributed_key_valu.Ring.{
  Token, get_primary_node, primary_at, find_token, lower_bound, get_buddy_node, buddy_from,
  buddy_loop, hash_key,
}
use hpe_distributed_key_valu.Murmur.{murmur3_32}
use hpe_distributed_key_valu.Decimal.{to_string}
use hpe_distributed_key_valu.Store
use hpe_distributed_key_valu.Store.{KvStore, inserted, updated, deleted, found_text}
use hpe_distributed_key_valu.Store.Assoc.{assoc_segment, assoc-IsMap, lookup, remove}
use hpe_distributed_key_valu.Client.{IkvClient}
use hpe_distributed_key_valu.Distributor.{
  KvDistributor, is_miss_or_error, endpoint_of, primary_of, buddy_of, get, insert, delete_key,
}
use hpe_distributed_key_valu.Gossip.{alive}
use hpe_distributed_key_valu.Distributor.{construct, fetch_membership_from_server}
use hpe_distributed_key_valu.Distributor.Current.{
  IsCurrent, construct-IsCurrent, fetch_membership_from_server-IsCurrent,
}
use hpe_distributed_key_valu.Distributor.Routes.{IsRemote, IsHere}
use hpe_distributed_key_valu.Distributor.Reads.{get-IsAnswer}
use hpe_distributed_key_valu.Distributor.Failover.{get_fails_over}
use hpe_distributed_key_valu.Distributor.RoundTrip.{get_after_insert}
use hpe_distributed_key_valu.Distributor.Undone.{get_after_lost_delete}
use hpe_distributed_key_valu.Tests.Stores.{
  one_entry, open_store, open_store-IsOpen, inserts, deletes,
}

-- The first node does not answer, and the second does not hear the deletes.
abbrev pub far_client : IkvClient
far_client = record {
  World = List (ℤ × Text);
  fetch = λ key ep w.
      if text_eq ep (codes "10.0.0.1:5000")
      then (none, w)
      else (some (found_text (lookup key w)), w);
  insert = λ key v ep w. if text_eq ep (codes "10.0.0.1:5000") then w else (key, v) ∷ remove key w;
  update = λ key v ep w. if text_eq ep (codes "10.0.0.1:5000") then w else (key, v) ∷ remove key w;
  delete_key = λ key ep w. w;
  get_membership = λ ep w. (none, w);
}

-- Node 1 has every key whose hash is at most 1,000, and node 0 the others.
abbrev pub two_tokens : List Token
two_tokens =
    record { position = 1_000; node_id = pos 1 }
    ∷ record { position = 4_294_967_295; node_id = pos 0 }
    ∷ []

abbrev pub process : ℤ → List (ℤ × Text) → KvDistributor (List (ℤ × Text)) (List (ℤ × Text))
process id w = record {
  count_of_node = 2;
  node_to_ip = (pos 0, codes "10.0.0.1:5000") ∷ (pos 1, codes "10.0.0.2:5000") ∷ [];
  local_node_id = id;
  hash_ring = two_tokens;
  kv = open_store;
  world = w;
}

primary_five : primary_of two_tokens (pos 5) ≡ pos 0
unfolding get_primary_node primary_at find_token lower_bound hash_key murmur3_32 to_string
primary_five = refl

buddy_five : buddy_of two_tokens (pos 5) ≡ pos 1
unfolding get_buddy_node buddy_from buddy_loop find_token lower_bound hash_key murmur3_32 to_string
buddy_five = refl

abbrev pub outside : KvDistributor (List (ℤ × Text)) (List (ℤ × Text))
outside = process (pos 9) one_entry

abbrev first_process : KvDistributor (List (ℤ × Text)) (List (ℤ × Text))
first_process = process (pos 0) one_entry

two_nodes : (buddy_of two_tokens (pos 5) ==ℤ primary_of two_tokens (pos 5)) ≡ false
two_nodes = rw (primary_five, buddy_five) refl

primary-IsRemote :
    IsRemote assoc_segment far_client outside
      (primary_of two_tokens (pos 5))
      (codes "10.0.0.1:5000")
unfolding endpoint_of
primary-IsRemote = rw primary_five (record { valid = refl; known = refl; elsewhere = refl })

buddy-IsRemote :
    IsRemote assoc_segment far_client outside (buddy_of two_tokens (pos 5)) (codes "10.0.0.2:5000")
unfolding endpoint_of
buddy-IsRemote = rw buddy_five (record { valid = refl; known = refl; elsewhere = refl })

buddy_answers :
    far_client.fetch (pos 5) (codes "10.0.0.2:5000") one_entry ≡ (some (codes "five"), one_entry)
unfolding lookup
buddy_answers = refl

five_hits : is_miss_or_error (codes "five") ≡ false
unfolding is_miss_or_error
five_hits = refl

get_fails_over_example : get assoc_segment far_client (pos 5) outside ≡ (
  codes "five",
  record outside {
    world = far_client.insert (pos 5) (codes "five") (codes "10.0.0.1:5000") one_entry;
  },
)
get_fails_over_example =
    get_fails_over assoc_segment far_client (pos 5) outside (codes "10.0.0.2:5000") buddy-IsRemote
      two_nodes (codes "10.0.0.1:5000") primary-IsRemote refl (codes "five") one_entry buddy_answers
      five_hits

nobody_has_it : is_miss_or_error (found_text (lookup (pos 5) [])) ≡ true
unfolding is_miss_or_error lookup
nobody_has_it = refl

abbrev empty_outside : KvDistributor (List (ℤ × Text)) (List (ℤ × Text))
empty_outside = process (pos 9) []

get-IsAnswer_example :
    ((get assoc_segment far_client (pos 5) outside).0 ≡ codes "RPC Failed")
    ⊎ (is_miss_or_error (get assoc_segment far_client (pos 5) outside).0 ≡ false)
get-IsAnswer_example = get-IsAnswer assoc_segment far_client (pos 5) outside

pub primary_seven : primary_of two_tokens (pos 7) ≡ pos 0
unfolding get_primary_node primary_at find_token lower_bound hash_key murmur3_32 to_string
primary_seven = refl

pub buddy_seven : buddy_of two_tokens (pos 7) ≡ pos 1
unfolding get_buddy_node buddy_from buddy_loop find_token lower_bound hash_key murmur3_32 to_string
buddy_seven = refl

five-IsHere : IsHere assoc_segment far_client first_process (primary_of two_tokens (pos 5))
five-IsHere = rw primary_five (record { valid = refl; same = refl })

pub seven_hits : is_miss_or_error (c_str (codes "seven")) ≡ false
unfolding is_miss_or_error
seven_hits = refl

new_hits : is_miss_or_error (c_str (codes "V")) ≡ false
unfolding is_miss_or_error
new_hits = refl

get_after_insert_example :
    (get assoc_segment far_client
      (pos 7)
      (insert assoc_segment far_client (pos 7) (codes "seven") first_process)).0
    ≡ codes "seven"
get_after_insert_example =
    get_after_insert assoc_segment far_client assoc-IsMap (pos 7) (codes "seven") first_process
      one_entry (rw primary_seven (record { valid = refl; same = refl })) open_store-IsOpen refl
      seven_hits inserts

seven_known :
    endpoint_of (primary_of two_tokens (pos 7)) first_process.node_to_ip
    ≡ some (codes "10.0.0.1:5000")
unfolding endpoint_of
seven_known = rw primary_seven refl

five_known :
    endpoint_of (primary_of two_tokens (pos 5)) first_process.node_to_ip
    ≡ some (codes "10.0.0.1:5000")
unfolding endpoint_of
five_known = rw primary_five refl

abbrev seven_away : List (ℤ × Text)
seven_away = (pos 7, codes "seven") ∷ []

abbrev seven_missing : KvDistributor (List (ℤ × Text)) (List (ℤ × Text))
seven_missing = process (pos 0) seven_away

buddy_seven-IsRemote :
    IsRemote assoc_segment far_client seven_missing
      (buddy_of two_tokens (pos 7))
      (codes "10.0.0.2:5000")
unfolding endpoint_of
buddy_seven-IsRemote = rw buddy_seven (record { valid = refl; known = refl; elsewhere = refl })

seven_misses : is_miss_or_error (Store.find_value assoc_segment (pos 7) open_store) ≡ true
unfolding is_miss_or_error Store.find_value lookup
seven_misses = refl

seven_answers :
    far_client.fetch (pos 7) (codes "10.0.0.2:5000") seven_away ≡ (some (codes "seven"), seven_away)
unfolding lookup
seven_answers = refl

near_buddy-IsRemote :
    IsRemote assoc_segment far_client first_process
      (buddy_of two_tokens (pos 5))
      (codes "10.0.0.2:5000")
unfolding endpoint_of
near_buddy-IsRemote = rw buddy_five (record { valid = refl; known = refl; elsewhere = refl })

get_after_lost_delete_example :
    get assoc_segment far_client (pos 5) (delete_key assoc_segment far_client (pos 5) first_process)
    ≡ (
      codes "five",
      record first_process {
        kv =
            (Store.insert assoc_segment
              (pos 5)
              (codes "five")
              (Store.delete assoc_segment (pos 5) open_store).0).0;
      },
    )
get_after_lost_delete_example =
    get_after_lost_delete assoc_segment far_client assoc-IsMap (pos 5) first_process
      (codes "10.0.0.1:5000") (codes "10.0.0.2:5000") one_entry five-IsHere five_known
      near_buddy-IsRemote two_nodes open_store-IsOpen refl deletes (codes "five") one_entry
      buddy_answers five_hits

-- A client whose server knows of one live node.
abbrev pub view_client : IkvClient
view_client = record far_client {
  get_membership = λ ep w. (
    some (
        record {
          node_id = pos 3;
          endpoint = codes "tcp://10.0.0.4:5000";
          status = alive;
          heartbeat_counter = 1;
          generation = 1;
        }
        ∷ []),
    w,
  );
}

abbrev pub built : KvDistributor (List (ℤ × Text)) (List (ℤ × Text))
built =
    construct assoc_segment view_client (codes "10.0.0.1:5000" ∷ codes "10.0.0.2:5000" ∷ [])
      (codes "10.0.0.1:5000") open_store one_entry

fetch_membership_from_server-IsCurrent_example :
    IsCurrent assoc_segment view_client
      (fetch_membership_from_server assoc_segment view_client (codes "10.0.0.2:5000") built).1
fetch_membership_from_server-IsCurrent_example =
    fetch_membership_from_server-IsCurrent assoc_segment view_client (codes "10.0.0.2:5000") built (
      construct-IsCurrent assoc_segment view_client
        (codes "10.0.0.1:5000" ∷ codes "10.0.0.2:5000" ∷ []) (codes "10.0.0.1:5000") open_store
        one_entry)
