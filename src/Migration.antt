-- ===== src/Migration.antt =====
-- The database migrations: packages/models/src/migration-manifest.ts (the bundled identities) and
-- migration-state.ts (what a database's history says against them).
pub mod Manifest
pub mod State
pub mod Session
mod Examples
