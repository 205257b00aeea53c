-- ===== src/Wrk.antt =====
-- benchmarks/routing_wrk: waiting for the router to become quiescent.
pub mod Quiescence
