-- ===== src/Tests/Lifecycles.antt =====
-- Instances of the theorems on the constructor and the destructor of src/KVStore.cpp, on the platform
-- of Store/Images: the node n1 has a file and a shared memory object, each with one pair.
use hpe_distributed_key_valu.Prelude.{
  ◌≡◌, refl, true, [], ◌∷◌, Option, none, some, Text, codes, text_eq, if◌then◌else◌, pos,
}
use hpe_distributed_key_valu.Store.{
  KvStore, StorageMode, memory, persistent, ConnectionMode, server, client,
}
use hpe_distributed_key_valu.Store.Platform.{Trouble}
use hpe_distributed_key_valu.Store.Boot.{Names, names_of, Boot, create_new}
use hpe_distributed_key_valu.Store.Storage.{create_persistent_storage}
use hpe_distributed_key_valu.Store.Lifecycle.{blank, construct, destruct, start_up}
use hpe_distributed_key_valu.Store.Images.{
  Image, image_segment, image-IsMap, Disk, disk_platform, disk-IsPlatform,
}
use hpe_distributed_key_valu.Store.Ensures.{Ensures}
use hpe_distributed_key_valu.Store.Ready.{IsReady}
use hpe_distributed_key_valu.Store.Startup.{construct-IsReady}
use hpe_distributed_key_valu.Store.Shutdown.{shutdown_forgets}
use hpe_distributed_key_valu.Store.Connection.{IsConnected, Untouched, client_connects}

abbrev one_pair : Image
one_pair = record { mapped = true; pairs = (pos 5, codes "five") ∷ [] }

abbrev n1 : Names
n1 = names_of (codes "n1")

abbrev named : Text → Text → Option Image
named name n = if text_eq name n then some one_pair else none

abbrev disk : Disk
disk = record {
  object = named (codes "Project_n1");
  file = named (codes "./kvstore_persistent_n1.dat");
  listing = [];
}

abbrev started : StorageMode → ConnectionMode → Option Trouble × Boot image_segment disk_platform
started mode conn = construct image_segment disk_platform 2_000 mode conn (codes "n1") disk

starts : (started persistent server).0 ≡ none
unfolding construct start_up create_persistent_storage names_of
starts = refl

construct-IsReady_example :
    IsReady image_segment disk_platform persistent (started persistent server).1.kv
unfolding construct start_up create_persistent_storage names_of
construct-IsReady_example =
    construct-IsReady image_segment disk_platform 2_000 persistent server (codes "n1") disk _ refl

abbrev running : KvStore Image
running = record (blank image_segment disk_platform 2_000 persistent server) {
  file_storage = some one_pair;
  persistent_map_ptr = true;
}

-- The file after `Insert` of a second pair by a server that is then killed.
abbrev two_pairs : Image
two_pairs = record { mapped = true; pairs = (pos 6, codes "six") ∷ (pos 5, codes "five") ∷ [] }

abbrev after_kill : Disk
after_kill = disk_platform.commit persistent n1.persistent_file_path two_pairs disk

abbrev stopped : Boot image_segment disk_platform
stopped = record {
  kv = blank image_segment disk_platform 2_000 persistent server;
  world = destruct image_segment disk_platform n1 running disk;
}

shutdown_forgets_example : image_segment.find (pos 5) (record { mapped = true; pairs = [] }) ≡ none
unfolding start_up create_persistent_storage names_of destruct create_new
shutdown_forgets_example =
    shutdown_forgets image_segment disk_platform image-IsMap disk-IsPlatform n1 running one_pair
      one_pair disk 2_000 (start_up n1 2_000 persistent server stopped).1 refl refl refl refl refl
      refl refl _ refl (pos 5)

abbrev in_memory : KvStore Image
in_memory = record (blank image_segment disk_platform 2_000 memory server) {
  memory_storage = some one_pair;
  memory_map_ptr = true;
}

client_connects_example :
    Ensures
      (IsConnected image_segment disk_platform memory n1 disk)
      (Untouched image_segment disk_platform disk)
      (started memory client)
client_connects_example = client_connects image_segment disk_platform 2_000 memory (codes "n1") disk
