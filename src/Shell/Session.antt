-- ===== src/Shell/Session.antt =====
-- How the client of src/main_client.cpp finds the storage of a server of src/main_server.cpp.
use hpe_distributed_key_valu.Prelude.{
  ℕ, ◌≡◌, refl, ap, ◌∙◌, false, [], ◌∷◌, ◌++◌, none, some, All, ◌==◌, Text, ℤ,
}
use hpe_distributed_key_valu.Decimal.{to_string}
use hpe_distributed_key_valu.Decimal.RoundTrip.{to_string_no_colon}
use hpe_distributed_key_valu.Store.{memory, server, client}
use hpe_distributed_key_valu.Store.{Segment}
use hpe_distributed_key_valu.Store.Platform.{ok, Platform, IsPlatform}
use hpe_distributed_key_valu.Store.Boot.{names_of, Boot}
use hpe_distributed_key_valu.Store.Lifecycle.{start_up, construct}
use hpe_distributed_key_valu.Store.Sharing.{attached, client_shares}
use hpe_distributed_key_valu.Shell.{after_last_colon, tag_or_empty, node_tag_of}

no_colon_behind : (s : Text) → All (λ c. (c == b':') ≡ false) s → after_last_colon s ≡ none
unfolding after_last_colon
no_colon_behind [] h = refl
no_colon_behind (c ∷ s) h = rw (no_colon_behind s h.1, h.0) refl

last_colon :
    (ip tag : Text)
    → All (λ c. (c == b':') ≡ false) tag
    → after_last_colon (ip ++ b':' ∷ tag) ≡ some tag
unfolding after_last_colon
last_colon [] tag h = rw (no_colon_behind tag h) refl
last_colon (c ∷ ip) tag h = rw (last_colon ip tag h) refl

node_tag-port : (ip : Text) (port : ℤ) → node_tag_of (ip ++ b':' ∷ to_string port) ≡ to_string port
node_tag-port ip port = ap tag_or_empty (last_colon ip (to_string port) (to_string_no_colon port))

module _ (S : Segment) (P : Platform S) (laws : IsPlatform S P) where
  -- The server tags its storage with its port, and the client with what follows the last colon of the
  -- first endpoint of the configuration. If this endpoint ends in a colon and the server's port, and
  -- the server of the memory mode started without an exception, the client holds the server's segment
  -- with its map, if the mutex opens.
  pub client_finds_server :
      (size size' : ℕ) (ip : Text) (port : ℤ) (s s' : Boot S P) (w : P.World)
      → start_up (names_of (to_string port)) size memory server s ≡ (none, s')
      → P.open_or_create_mutex (names_of (to_string port)).mutex_name s'.world ≡ ok w
      → construct S P size' memory client (node_tag_of (ip ++ b':' ∷ to_string port)) s'.world
        ≡ (none, attached S P laws size' s'.kv.memory_storage w)
  client_finds_server size size' ip port s s' w e o =
      ap (λ (t : Text). construct S P size' memory client t s'.world) (node_tag-port ip port)
      ∙ client_shares S P laws size size' (to_string port) s s' w e o
