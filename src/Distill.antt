-- ===== src/Distill.antt =====
-- benchmarks/lora_distill/core.py: the features, the integer scores and the kernel model file of the
-- distilled classifier. The floating-point functions are not modelled; the scale of a model is the
-- bit pattern of its double.
pub mod Features
pub mod Scores
pub mod File
