-- ===== src/Profile/Vsr.antt =====
-- scripts/vsr_profile_components.py: the component counters of VSR between two snapshots of its metrics.
pub mod Decimal
pub mod Printed
pub mod Window
pub mod Joined
pub mod Stored
pub mod Names
pub mod Once
pub mod Succeeds
pub mod Snapshot
pub mod Summary
pub mod Render
