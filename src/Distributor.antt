-- ===== src/Distributor.antt =====
-- src/KVDistributor.cpp and include/KVDistributor.hpp: a request goes to the primary and the buddy
-- of its key.
-- The store is that of Store, and the client any `IkvClient`; the pointer to it is set, as both
-- constructors' callers see to. `node_to_ip[id]` adds an empty endpoint for an id that is missing,
-- and the model does too. The lock of the ring makes each operation one step. Log lines are left
-- out, but not the read of `node_to_ip` that they make.
mod State
mod Requests
mod Membership
pub mod Reads
pub mod Routes
pub mod Failover
pub mod RoundTrip
pub mod Undone
pub mod Current
unfoldable pub use State.*
unfoldable pub use Requests.*
unfoldable pub use Membership.*
