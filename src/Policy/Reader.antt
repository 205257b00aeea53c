-- ===== src/Policy/Reader.antt =====
-- `parse_scalar` and `load_policy` of benchmarks/policy/generate_keyword_header.py.
pub mod Scalar
pub mod Cells
pub mod Lines
pub mod Load
pub mod Shape
pub mod Written
