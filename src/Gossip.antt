-- ===== src/Gossip.antt =====
-- src/GossipMembership.cpp and include/GossipMembership.hpp: the gossip membership of a node.
-- The table is an association list in the order of its iteration. What the code reads from outside
-- is an argument: the clock (`clock i` is what `nowMs` gives while the i-th record of a loop is
-- handled), the random index, the RPC exchange with a peer (`none` is an exception); the generation file is in Generations. The calls of the
-- change callback are recorded in `delivered`, the latest first. Console output is left out.
mod State
mod Merge
mod Rounds
pub mod Table
pub mod Versions
pub mod Failures
pub mod Self
pub mod Shape
pub mod Agreement
pub mod Rumours
pub mod Changes
pub mod Runs
pub mod Alive
pub mod Notices
pub mod SameSet
pub mod Generations
pub mod Restarts
pub mod Seeds
pub mod Convergence
pub mod Endpoints
unfoldable pub use State.*
unfoldable pub use Merge.*
unfoldable pub use Rounds.*
