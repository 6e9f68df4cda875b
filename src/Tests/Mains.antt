-- ===== src/Tests/Mains.antt =====
-- Instances of the theorems on the two `main` functions, src/main_server.cpp and src/main_client.cpp.
use hpe_distributed_key_valu.Prelude.{ℕ, ◌≡◌, refl, [], ◌∷◌, ◌++◌, some, arith, Text, codes, pos}
use hpe_distributed_key_valu.Decimal.{to_string}
use hpe_distributed_key_valu.Store.Assoc.{assoc_segment}
use hpe_distributed_key_valu.Config.{
  Json, GossipConfig, loaded, read_count, read_size, read_protocol, read_ip, get_endpoint,
}
use hpe_distributed_key_valu.Gossip.{GossipMembership, merge_view, start}
use hpe_distributed_key_valu.Store.{memory}
use hpe_distributed_key_valu.Store.Images.{image_segment, disk_platform, disk-IsPlatform}
use hpe_distributed_key_valu.Store.Boot.{Boot, names_of, create_new}
use hpe_distributed_key_valu.Store.Storage.{create_memory_storage}
use hpe_distributed_key_valu.Store.Lifecycle
use hpe_distributed_key_valu.Store.Lifecycle.{start_up}
use hpe_distributed_key_valu.Store.Sharing.{attached}
use hpe_distributed_key_valu.Distributor
use hpe_distributed_key_valu.ServerMain.{Settings}
use hpe_distributed_key_valu.ServerMain.Node.{new_membership, new_store}
use hpe_distributed_key_valu.Shell.{num_operations, benchmark, benchmark1, run_lines, Dist}
use hpe_distributed_key_valu.Shell.Benchmarks.{
  random_values, put_lines, get_lines, benchmark-run_lines,
}
use hpe_distributed_key_valu.Shell.Main.{
  typed, run_events, make_distributor, endpoints_from, client_main, client_main_lem,
}
use hpe_distributed_key_valu.Tests.Members.{home, fixed_clock, echo}
use hpe_distributed_key_valu.Tests.Servers.{no_files}
use hpe_distributed_key_valu.Tests.Requests.{far_client, outside}
use hpe_distributed_key_valu.Tests.Programs.{document, empty_disk, first_boot, served}

abbrev settings : Settings
settings = record {
  protocol = codes "ofi+tcp";
  port = pos 5_000;
  mem_size = 2_000;
  storage_mode = memory;
}

abbrev gossip_cfg : GossipConfig
gossip_cfg = record {
  interval_ms = pos 1_000;
  suspect_threshold_ms = pos 3_000;
  dead_threshold_ms = pos 10_000;
  seed_nodes = [];
}

abbrev second_ip : Text
second_ip = codes "10.0.0.2"

abbrev launched : GossipMembership
launched = start echo (λ i j. 0) (new_membership (pos 1) gossip_cfg settings second_ip no_files 0).0

abbrev booted : Boot image_segment disk_platform
booted = (new_store image_segment disk_platform settings empty_disk).1

abbrev informed : GossipMembership
informed = (merge_view fixed_clock (home ∷ []) launched).0

-- The client of the server that `first_boot` makes; a document whose texts are all the endpoint.
abbrev one_endpoint : Json
one_endpoint = record document { get_string = λ path. some (codes "10.0.0.1:5000") }

abbrev joined : Boot image_segment disk_platform
joined =
    attached image_segment disk_platform disk-IsPlatform 3_145_728 served.kv.memory_storage
      served.world

abbrev connected : Dist image_segment far_client
connected =
    Distributor.construct image_segment far_client
      (codes "10.0.0.1:5000" ∷ codes "10.0.0.1:5000" ∷ codes "10.0.0.1:5000" ∷ [])
      (codes "10.0.0.1:5000") joined.kv []

has_distributor :
    make_distributor image_segment far_client (λ i. []) (λ i. i) one_endpoint [] joined.kv []
    ≡ some connected
unfolding make_distributor endpoints_from read_count read_protocol get_endpoint read_ip
has_distributor = refl

client_main_lem_example :
    client_main image_segment far_client
      (λ i. [])
      (λ i. i)
      one_endpoint
      disk_platform
      (codes "Memory")
      (loaded [])
      (typed (codes "exit") ∷ [])
      served.world
      []
    ≡ run_events image_segment far_client (λ i. []) (λ i. i) (typed (codes "exit") ∷ []) connected
unfolding start_up create_memory_storage create_new names_of to_string read_size get_endpoint
client_main_lem_example =
    client_main_lem image_segment far_client (λ i. []) (λ i. i) one_endpoint disk_platform
      disk-IsPlatform (codes "Memory") [] (typed (codes "exit") ∷ []) [] 2_000 3_145_727
      (codes "10.0.0.1") (pos 5_000) first_boot served served.world connected refl refl refl refl
      refl has_distributor

abbrev draws : ℕ → ℕ → ℕ
draws i j = 7

benchmark-run_lines_example :
    (run_lines assoc_segment far_client
        (λ i. [])
        (λ i. i)
        (put_lines (random_values draws) num_operations 1 ++ get_lines (λ i. i) num_operations 1)
        outside
      ≡ some (benchmark assoc_segment far_client (random_values draws) outside))
    × (run_lines assoc_segment far_client
          (λ i. [])
          (λ i. i)
          (put_lines (random_values draws) num_operations 1 ++ get_lines (λ i. 5) num_operations 0)
          outside
        ≡ some (benchmark1 assoc_segment far_client (random_values draws) (λ i. 5) outside))
benchmark-run_lines_example =
    benchmark-run_lines assoc_segment far_client (λ i. []) (λ i. i) draws (λ i. 5) outside
      (λ i j. omega arith) (λ j lt. omega arith)
