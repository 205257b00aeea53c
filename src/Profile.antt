-- ===== src/Profile.antt =====
-- scripts/sk_profile_components.py and scripts/vsr_profile_components.py: the component profiles of the
-- two routers.
pub mod Double
pub mod Command
pub mod Router
pub mod Vsr
