-- ===== src/Tests.antt =====
-- Runs of the code at concrete inputs, and the properties applied to them.
mod Data
mod Ids
mod Table
mod Versions
mod Probes
mod Chains
mod Stores
mod Shortlists
mod Lookups
mod Joins
mod Retrievals
mod Publications
mod Workers
mod Exchange
mod Hub
mod Signatures
mod Keys
mod Commands
