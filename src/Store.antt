-- ===== src/Store.antt =====
-- src/KVStore.cpp and include/KVStore.hpp: the store of one node.
-- Boost's segments, the map object in a segment and the named mutex are third-party code: they are
-- the parameter `Segment`, and `IsMap` states what their documentation promises. The memory and the
-- persistent variants of an operation differ in the segment that they use and in the flush. What an
-- operation prints is the report that it returns. Its statistics and lists are in Printing.
mod Boost
mod Defs
pub mod Effects
pub mod Writes
pub mod Success
pub mod Refinement
pub mod Printing
pub mod Listing
pub mod Platform
pub mod Boot
pub mod Storage
pub mod Lifecycle
pub mod Ensures
pub mod Ready
pub mod Startup
pub mod Restart
pub mod Shutdown
pub mod Release
pub mod Connection
pub mod Sharing
pub mod Reads
pub mod Assoc
pub mod Images
pub use Boost.*
unfoldable pub use Defs.*
