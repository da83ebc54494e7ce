-- ===== src/Inertia.antt =====
-- Package inertia (inertia/inertia.go): pages for Inertia.js.
pub mod Props
pub mod Manifest
pub mod Page
mod Tests
