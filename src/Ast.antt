-- ===== src/Ast.antt =====
-- ast.go and the entities that it builds. The children hold the descriptors, the entities, the
-- construction of the graph, and what is proved of it.
pub mod Descriptor
pub mod Entity
pub mod Graph
pub mod Hydrate
pub mod SourceInfo
pub mod Types
pub mod Process
pub mod Entries
pub mod Leads
pub mod Returns
pub mod Keeps
pub mod Made
pub mod Names
pub mod Lookup
pub mod Imports
pub mod Visit
pub mod Dependents
pub mod Presence
pub mod Registry
pub mod Transitive
pub mod Samples
mod Tests
