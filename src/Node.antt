-- ===== src/Node.antt =====
-- The package cmd/node: the resolver of the node, and what its commands are made of.
pub mod Resolver
pub mod Commands
pub mod Contacts
pub mod Publication
