-- ===== src/Distill/Features.antt =====
-- `normalize_bytes`, `fnv1a_trigram` and `feature_indices` of benchmarks/lora_distill/core.py.
pub mod Bounds
use xsr.Prelude.{
  Bool, List, Result, Text, [], bit_and, bit_xor, drop, err, if◌then◌else◌, leb, length, lower_char,
  ltb, map, not, ok, suc, take, zero, ℕ, ◌%◌, ◌&&◌, ◌*◌, ◌++◌, ◌+◌, ◌-◌, ◌/◌, ◌==◌, ◌^◌, ◌||◌, ◌∷◌,
  ◌>>=◌,
}

abbrev pub prompt_byte_limit : ℕ
prompt_byte_limit = 16384

abbrev pub fnv_offset : ℕ
fnv_offset = 2166136261

abbrev pub fnv_prime : ℕ
fnv_prime = 16777619

-- The `ValueError` and `OverflowError` of the module, the errors of `struct`, and those of `encode` for a
-- surrogate and of a maximum of nothing.
pub data ModelError : Type 0 where
  not_power_of_two bad_weight_shape bad_bias_shape bound_exceeded struct_error : ModelError
  incompatible_header wrong_bucket_count bad_size bound_mismatch : ModelError
  not_encodable empty_array : ModelError

-- The UTF-8 bytes of a code point.
unfoldable pub utf8_char : ℕ → Text
utf8_char c =
    if ltb c 0x80
    then c ∷ []
    else if ltb c 0x800
    then (0xC0 + c / 64) ∷ (0x80 + c % 64) ∷ []
    else if ltb c 0x10000
    then (0xE0 + c / 4096) ∷ (0x80 + c / 64 % 64) ∷ (0x80 + c % 64) ∷ []
    else (0xF0 + c / 262144) ∷ (0x80 + c / 4096 % 64) ∷ (0x80 + c / 64 % 64) ∷ (0x80 + c % 64) ∷ []

abbrev pub is_surrogate : ℕ → Bool
is_surrogate c = leb 0xD800 c && leb c 0xDFFF

abbrev put_front : Text → Result ModelError Text → Result ModelError Text
put_front bytes (ok rest) = ok (bytes ++ rest)
put_front bytes (err e) = err e

-- prompt.encode("utf-8"), which raises on a surrogate.
unfoldable pub utf8 : Text → Result ModelError Text
unfolding utf8_char
utf8 [] = ok []
utf8 (c ∷ cs) =
    let rest = utf8 cs in if is_surrogate c then err not_encodable else put_front (utf8_char c) rest

unfoldable pub normalize_bytes : Text → ℕ → Result ModelError Text
unfolding utf8 lower_char
normalize_bytes prompt limit = do raw ← utf8 prompt; ok (map lower_char (take limit raw))

-- `feature_count <= 0 or feature_count & (feature_count - 1)`
abbrev pub bad_count : ℕ → Bool
bad_count feature_count = feature_count == 0 || not (bit_and feature_count (feature_count - 1) == 0)

-- The loop over the bytes.
unfoldable pub fnv1a : ℕ → Text → ℕ
fnv1a value [] = value
fnv1a value (byte ∷ bytes) = fnv1a (bit_xor value byte * fnv_prime % 2 ^ 32) bytes

unfoldable pub fnv1a_trigram : Text → ℕ → Result ModelError ℕ
unfolding fnv1a
fnv1a_trigram trigram feature_count =
    if bad_count feature_count
    then err not_power_of_two
    else ok (bit_and (fnv1a fnv_offset trigram) (feature_count - 1))

-- The trigrams at `count` consecutive places.
unfoldable pub trigram_indices : ℕ → Text → ℕ → Result ModelError (List ℕ)
unfolding fnv1a_trigram
trigram_indices zero bytes feature_count = ok []
trigram_indices (suc count) bytes feature_count = do
  index ← fnv1a_trigram (take 3 bytes) feature_count
  rest ← trigram_indices count (drop 1 bytes) feature_count
  ok (index ∷ rest)

unfoldable pub feature_indices : Text → ℕ → ℕ → Result ModelError (List ℕ)
unfolding trigram_indices normalize_bytes
feature_indices prompt limit feature_count = do
  bytes ← normalize_bytes prompt limit
  trigram_indices (length bytes - 2) bytes feature_count
