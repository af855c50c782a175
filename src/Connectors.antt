-- ===== src/Connectors.antt =====
-- crates/nopager-connectors/src: the parts that the production pipeline rests on.
pub mod Vercel
pub mod SourceCompatibility
