-- ===== src/Tokenizer.antt =====
-- benchmarks/policy/vsr_bm25_tokenizer.py
pub mod Tables
pub mod Stem
pub mod Words
