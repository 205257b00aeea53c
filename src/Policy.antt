-- ===== src/Policy.antt =====
-- benchmarks/policy/generate_keyword_header.py
pub mod Values
pub mod Signals
pub mod Validate
pub mod Header
pub mod Reader
