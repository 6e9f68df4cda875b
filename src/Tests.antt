-- ===== src/Tests.antt =====
-- Runs of the model on concrete inputs: the vectors of the hash, and an instance of each theorem.
mod Hashing
mod Rings
mod Members
mod Servers
mod Clusters
mod Stores
mod Lifecycles
mod Requests
mod Programs
mod Networks
mod Mains
