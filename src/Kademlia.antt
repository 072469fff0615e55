-- ===== src/Kademlia.antt =====
-- The package kademlia: identifiers, contacts, buckets, the routing table, lookups and the store.
pub mod Id
pub mod Contact
pub mod Bucket
pub mod RoutingTable
pub mod Eviction
pub mod Shortlist
pub mod Lookup
pub mod DataStore
pub mod DataLookup
pub mod Join
pub mod Publish
pub mod Worker
pub mod Messages
pub mod SimulatedNetwork
