-- ===== src/Operational.antt =====
-- internal/operational: the incidents of the owners, ordered, and their pages composed.
pub mod Incidents
pub mod Query
pub mod Frames
pub mod Validity
pub mod Pages
pub mod Reads
pub mod Refill
pub mod Compose
pub mod Serve
