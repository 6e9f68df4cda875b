-- ===== src/Shell.antt =====
-- src/main_client.cpp: the commands of the client, the refresh of the membership, the benchmarks, and
-- the node tag that leads the client to the storage of a server.
-- The random values of the benchmarks are parameters here, and made in Benchmarks.
pub mod Words
pub mod Commands
pub mod Refresh
pub mod Session
pub mod Benchmarks
pub mod Main
use hpe_distributed_key_valu.Prelude.{
  ℕ, zero, suc, ◌+◌, ◌==◌, Bool, true, false, not, ◌&&◌, ◌||◌, List, [], ◌∷◌, ◌++◌, Option, none,
  some, leb, ltb, is_empty, length, if◌then◌else◌, Text, codes, text_eq, ℤ, pos, negsuc,
}
use hpe_distributed_key_valu.Decimal.Parse.{
  Number, number, invalid_argument, out_of_range, is_space, skip_spaces, stoi,
}
use hpe_distributed_key_valu.Store.{Segment, StorageMode, memory, persistent}
use hpe_distributed_key_valu.Client.{IkvClient}
use hpe_distributed_key_valu.Distributor.{
  KvDistributor, get, insert, update, delete_key, get_all_endpoints, fetch_membership_from_server,
}
use hpe_distributed_key_valu.ServerMain.{each_char, to_lower, mode_of}

-- `iss >> arg`: the word at the front of a text, and what follows it.
unfoldable pub take_word : Text → Text
take_word [] = []
take_word (c ∷ s) = let rest = take_word s in if is_space c then [] else c ∷ rest

unfoldable pub drop_word : Text → Text
drop_word [] = []
drop_word (c ∷ s) = let rest = drop_word s in if is_space c then c ∷ s else rest

-- The loop, with rounds to spare: a word has a character.
unfoldable pub parse_loop : ℕ → Text → List Text
parse_loop zero s = []
parse_loop (suc f) s = elim (skip_spaces s) [
  | [] ↦ []
  | c ∷ rest ↦ take_word (c ∷ rest) ∷ parse_loop f (drop_word (c ∷ rest))
]

unfoldable pub parse_command : Text → List Text
parse_command command = parse_loop (length command) command

-- `value += " " + args[i]`
abbrev pub append_words : Text → List Text → Text
append_words value [] = value
append_words value (w ∷ ws) = append_words (value ++ (32 ∷ w)) ws

-- What the client prints for a line, apart from the prompt.
pub data Reply : Type 0 where
  silent goodbye help put_done update_done delete_done unknown : Reply
  value_is : Text → Reply
  stoi_error : Number → Reply
  sequential random : Reply

-- `first_ep.rfind(':')`, and the text behind it, where there is one and it is not empty.
unfoldable pub after_last_colon : Text → Option Text
after_last_colon [] = none
after_last_colon (c ∷ s) = elim (after_last_colon s) [
  | some tag ↦ some tag
  | none ↦ if c == b':' then some s else none
]

abbrev pub tag_or_empty : Option Text → Text
tag_or_empty none = []
tag_or_empty (some tag) = tag

abbrev pub node_tag_of : Text → Text
node_tag_of first_ep = tag_or_empty (after_last_colon first_ep)

-- The level of the log from the environment.
pub data Level : Type 0 where
  trace debug info warn err critical off : Level

abbrev pub level_of : Text → Level
level_of lvl =
    if text_eq lvl (codes "trace")
    then trace
    else if text_eq lvl (codes "debug")
    then debug
    else if text_eq lvl (codes "info")
    then info
    else if text_eq lvl (codes "warn") || text_eq lvl (codes "warning")
    then warn
    else if text_eq lvl (codes "err") || text_eq lvl (codes "error")
    then err
    else if text_eq lvl (codes "critical")
    then critical
    else if text_eq lvl (codes "off")
    then off
    else info

unfoldable pub log_level : Option Text → Level
log_level none = info
log_level (some env_log) = level_of (each_char to_lower env_log)

abbrev pub num_operations : ℕ
num_operations = 10_000

module _ (S : Segment) (C : IkvClient) where
  abbrev pub Dist : Type 0
  Dist = KvDistributor S.Mem C.World

  -- A command with a key: `stoi` may throw, and then nothing is done.
  abbrev pub with_key : Dist → (ℤ → Reply × Dist) → Number → Reply × Dist
  with_key d run (number key) = run key
  with_key d run failed = (stoi_error failed, d)

  abbrev pub put_key : Text → Dist → ℤ → Reply × Dist
  put_key value d key = (put_done, insert S C key value d)

  abbrev pub update_key : Text → Dist → ℤ → Reply × Dist
  update_key value d key = (update_done, update S C key value d)

  abbrev pub get_key : Dist → ℤ → Reply × Dist
  get_key d key = let (value, d') = get S C key d in (value_is value, d')

  abbrev pub remove_key : Dist → ℤ → Reply × Dist
  remove_key d key = (delete_done, delete_key S C key d)

  -- The loops of the benchmarks: `n` inserts from the key `i` on, and the reads of keys.
  unfoldable pub insert_all : (ℕ → Text) → ℕ → ℕ → Dist → Dist
  insert_all values zero i d = d
  insert_all values (suc n) i d = insert_all values n (suc i) (insert S C (pos i) (values i) d)

  unfoldable pub fetch_all : (ℕ → ℕ) → ℕ → ℕ → Dist → Dist
  fetch_all keys zero i d = d
  fetch_all keys (suc n) i d = fetch_all keys n (suc i) (get S C (pos (keys i)) d).1

  unfoldable pub benchmark : (ℕ → Text) → Dist → Dist
  benchmark values d = fetch_all (λ i. i) num_operations 1 (insert_all values num_operations 1 d)

  unfoldable pub benchmark1 : (ℕ → Text) → (ℕ → ℕ) → Dist → Dist
  benchmark1 values keys d = fetch_all keys num_operations 0 (insert_all values num_operations 1 d)

  -- The benchmarks that the environment's random numbers make.
  module _ (values : ℕ → Text) (keys : ℕ → ℕ) where
    abbrev pub other_command : Text → Dist → Reply × Dist
    other_command action d =
        if text_eq action (codes "benchmark")
        then (sequential, benchmark values d)
        else if text_eq action (codes "benchmark1")
        then (random, benchmark1 values keys d)
        else (unknown, d)

    -- The chain of `else if` on the action and on how many words there are.
    unfoldable pub run_command : Text → List Text → Dist → Reply × Dist
    run_command action [] d =
        if text_eq action (codes "exit")
        then (goodbye, d)
        else if text_eq action (codes "help")
        then (help, d)
        else other_command action d
    run_command action (key ∷ []) d =
        if text_eq action (codes "exit")
        then (goodbye, d)
        else if text_eq action (codes "help")
        then (help, d)
        else if text_eq action (codes "get")
        then with_key d (get_key d) (stoi key)
        else if text_eq action (codes "delete")
        then with_key d (remove_key d) (stoi key)
        else other_command action d
    run_command action (key ∷ value ∷ more) d =
        if text_eq action (codes "exit")
        then (goodbye, d)
        else if text_eq action (codes "help")
        then (help, d)
        else if text_eq action (codes "put")
        then with_key d (put_key (append_words value more) d) (stoi key)
        else if text_eq action (codes "get")
        then with_key d (get_key d) (stoi key)
        else if text_eq action (codes "update")
        then with_key d (update_key (append_words value more) d) (stoi key)
        else if text_eq action (codes "delete")
        then with_key d (remove_key d) (stoi key)
        else other_command action d

    abbrev pub run_words : List Text → Dist → Option (Reply × Dist)
    run_words [] d = none
    run_words (action ∷ args) d = some (run_command action args d)

    -- One round of the loop; `none` is the undefined `args[0]` of a line of blanks.
    unfoldable pub run_line : Text → Dist → Option (Reply × Dist)
    run_line input d =
        if is_empty input then some (silent, d) else run_words (parse_command input) d

    -- The loop over the lines, up to `exit` or the undefined access; the state that it leaves.
    unfoldable pub run_lines : List Text → Dist → Option Dist
    run_lines [] d = some d
    run_lines (input ∷ inputs) d = elim (run_line input d) [
      | none ↦ none
      | some (goodbye, d') ↦ some d'
      | some (reply, d') ↦ run_lines inputs d'
    ]

  -- One round of the background thread, over the endpoints that it asked for first: `active i` is
  -- `membership_active` before the endpoint `i`.
  unfoldable pub refresh_from : (ℕ → Bool) → ℕ → List Text → Dist → Bool × Dist
  refresh_from active i [] d = (false, d)
  refresh_from active i (ep ∷ eps) d =
      if not (active i)
      then (false, d)
      else let (fetched, d') = fetch_membership_from_server S C ep d in
        elim fetched [ true ↦ (true, d') | false ↦ refresh_from active (suc i) eps d' ]

  unfoldable pub refresh : (ℕ → Bool) → Dist → Bool × Dist
  refresh active d = refresh_from active 0 (get_all_endpoints S C d) d
