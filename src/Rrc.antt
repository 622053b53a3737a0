-- ===== src/Rrc.antt =====
-- The rrc module of the repository: prerequisite detection, selection and assembly.
pub mod Chunk
pub mod Message
pub mod Edge
pub mod Dag
pub mod ScoreCache
pub mod Floats
pub mod Engine
pub mod LocalContext
pub mod Detect
pub mod Selection
pub mod Provenance
pub mod Reduction
pub mod Assembly
pub mod Assemble
pub mod Predicate
pub mod TokenScale
pub mod Protocol
pub mod Select
