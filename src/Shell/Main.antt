-- ===== src/Shell/Main.antt =====
-- `main` of src/main_client.cpp: the storage mode that is typed, the configuration, the storage of the
-- server, the distributor, and the loop over the lines, between which the background thread takes
-- memberships. The engine, the sleeps of the thread and the log are left out.
use hpe_distributed_key_valu.Prelude.{
  true, arith, ltb, ℕ, zero, suc, ◌≡◌, refl, List, [], ◌∷◌, ◌++◌, Option, none, some, Text, codes,
  ℤ, pos,
}
use hpe_distributed_key_valu.Decimal.{to_string}
use hpe_distributed_key_valu.Decimal.Parse.{Number}
use hpe_distributed_key_valu.Config.{
  Json, Opened, loaded, could_not_open, parse_error, bind, read_count, read_protocol, read_size,
  read_ip, get_endpoint,
}
use hpe_distributed_key_valu.Store.{Segment, KvStore, memory, server, client}
use hpe_distributed_key_valu.Store.Platform.{Trouble, ok, Platform, IsPlatform}
use hpe_distributed_key_valu.Store.Boot.{names_of, Boot}
use hpe_distributed_key_valu.Store.Lifecycle.{start_up, get_instance}
use hpe_distributed_key_valu.Store.Sharing.{attached}
use hpe_distributed_key_valu.Client.{IkvClient}
use hpe_distributed_key_valu.Distributor
use hpe_distributed_key_valu.Distributor.{fetch_membership_from_server}
use hpe_distributed_key_valu.ServerMain.{mode_of, loop_count}
use hpe_distributed_key_valu.Shell.{
  silent, goodbye, help, put_done, update_done, delete_done, unknown, value_is, stoi_error,
  sequential, random, Reply, Dist, node_tag_of, run_line,
}
use hpe_distributed_key_valu.Shell.Session.{client_finds_server}

-- `printHelp`, line by line.
abbrev pub print_help : List Text
print_help =
    []
    ∷ codes "Distributed Key-Value Store Commands:"
    ∷ codes "===================================="
    ∷ codes "  put <key> <value>        - Store a key-value pair"
    ∷ codes "  get <key>                - Get a value for a key"
    ∷ codes "  update <key> <value>     - Update an existing key-value pair"
    ∷ codes "  delete <key>             - Delete a key-value pair"
    ∷ codes "  benchmark                - To run with sequential fetch pattern"
    ∷ codes "  benchmark1               - Run benchmark with random fetch pattern"
    ∷ codes "  help                     - Show this help message"
    ∷ codes "  exit                     - Exit the program"
    ∷ []

-- What is printed first for a reply; `what` is the text of an exception of `stoi`.
abbrev pub reply_lines : (Number → Text) → Reply → List Text
reply_lines what silent = []
reply_lines what goodbye = codes "Goodbye!" ∷ []
reply_lines what help = print_help
reply_lines what put_done = codes "Put operation completed successfully" ∷ []
reply_lines what update_done = codes "Update operation completed successfully" ∷ []
reply_lines what delete_done = codes "Delete operation completed successfully" ∷ []
reply_lines what unknown = codes "Unknown command. Type 'help' for available commands." ∷ []
reply_lines what (value_is value) = (codes "Value: " ++ value) ∷ []
reply_lines what (stoi_error e) = (codes "Error: " ++ what e) ∷ []
reply_lines what sequential = codes "Starting sequential benchmark..." ∷ []
reply_lines what random = codes "Starting random benchmark..." ∷ []

-- What the loop and the background thread do, in the order in which they take the ring's lock.
pub data Event : Type 0 where
  typed : Text → Event
  asks_server : Text → Event

-- An exception outside the `try` block ends the program, one inside gives the code 1; `undefined` is
-- the read of the first word of a line of blanks. `loops` is a program that is still in its loop
-- after the events.
pub data Ending (D : Type 0) : Type 0 where
  terminated undefined : Ending D
  code_1 : Ending D
  code_0 loops : D → Ending D

abbrev pub ended {ℓ} : {A : Type ℓ} {D : Type 0} → Ending D → (A → Ending D) → Option A → Ending D
ended e next none = e
ended e next (some a) = next a

positive : (n : ℕ) → ltb 0 (suc n) ≡ true
positive n = ground arith

module _ (S : Segment) (C : IkvClient) (values : ℕ → Text) (keys : ℕ → ℕ) where
  unfoldable pub run_events : List Event → Dist S C → Ending (Dist S C)
  run_events [] d = loops d
  run_events (asks_server ep ∷ events) d =
      run_events events (fetch_membership_from_server S C ep d).1
  run_events (typed input ∷ events) d = elim (run_line S C values keys input d) [
    | none ↦ undefined
    | some (goodbye, d') ↦ code_0 d'
    | some (reply, d') ↦ run_events events d'
  ]

  module _ (J : Json) where
    -- The endpoints that the constructor of the distributor reads, from the id `i` on.
    unfoldable pub endpoints_from : J.Value → ℕ → ℕ → Option (List Text)
    endpoints_from config zero i = some []
    endpoints_from config (suc left) i =
        bind (get_endpoint J (pos i) config)
          (λ ep. bind (endpoints_from config left (suc i)) (λ eps. some (ep ∷ eps)))

    unfoldable pub make_distributor : J.Value → KvStore S.Mem → C.World → Option (Dist S C)
    make_distributor config kv network = bind (read_count J config) (λ count.
        bind (read_protocol J config) (λ protocol.
          bind (endpoints_from config (loop_count count) 0) (λ endpoints.
            bind (read_ip J config)
              (λ local_ip. some (Distributor.construct S C endpoints local_ip kv network)))))

    module _ (P : Platform S) where
      -- The `try` block behind `get_instance`.
      abbrev pub with_store :
          J.Value → List Event → C.World → Option Trouble × Boot S P → Ending (Dist S C)
      with_store config events network (some trouble, s) = code_1
      with_store config events network (none, s) =
          ended code_1 (run_events events) (make_distributor config s.kv network)

      abbrev pub with_config : Text → J.Value → List Event → P.World → C.World → Ending (Dist S C)
      with_config mode config events disk network =
          ended terminated
            (λ mem_size.
              ended code_1
                (λ first_ep. with_store config events network (
                  get_instance S P none mem_size (mode_of mode) client (node_tag_of first_ep) disk))
                (get_endpoint J (pos 0) config))
            (read_size J config)

      unfoldable pub client_main :
          Text → Opened J.Value → List Event → P.World → C.World → Ending (Dist S C)
      client_main mode (loaded config) events disk network =
          with_config mode config events disk network
      client_main mode (could_not_open t) events disk network = terminated
      client_main mode parse_error events disk network = terminated

      module _ (laws : IsPlatform S P) where
        -- A client of the memory mode, in whose configuration the size is not 0 and the first endpoint
        -- ends in a colon and the port of a server of the memory mode that started without an
        -- exception, runs its loop on a distributor over the server's segment, if the mutex opens and
        -- the configuration has what the distributor reads.
        pub client_main_lem :
            (mode : Text) (config : J.Value) (events : List Event) (network : C.World)
            (size size' : ℕ) (ip : Text) (port : ℤ) (s s' : Boot S P) (w : P.World) (d : Dist S C)
            → mode_of mode ≡ memory
            → read_size J config ≡ some (suc size')
            → get_endpoint J (pos 0) config ≡ some (ip ++ b':' ∷ to_string port)
            → start_up (names_of (to_string port)) size memory server s ≡ (none, s')
            → P.open_or_create_mutex (names_of (to_string port)).mutex_name s'.world ≡ ok w
            → make_distributor config
                (attached S P laws (suc size') s'.kv.memory_storage w).kv
                network
              ≡ some d
            → client_main mode (loaded config) events s'.world network ≡ run_events events d
        unfolding client_main get_instance
        client_main_lem mode config events network size size' ip port s s' w d m rs first e o made =
            rw
              (
                rs,
                first,
                m,
                positive size',
                client_finds_server S P laws size (suc size') ip port s s' w e o,
                made,
              )
              refl
