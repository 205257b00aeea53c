-- ===== src/Distill/Features/Bounds.antt =====
-- How many features a prompt has, and where they lie.
use xsr.Prelude.{
  All, Ensures, Ensures-bind, Ensures-ok, List, Text, ap, arith, bind-eq-ok, bit_and-le, drop,
  length, length-map, length-take, lower_char, ok, refl, suc, take, zero, ℕ, ◌-◌, ◌<◌, ◌≡◌, ◌≤◌,
}
use xsr.Distill.Features.{
  feature_indices, fnv1a, fnv1a_trigram, fnv_offset, normalize_bytes, trigram_indices,
}

fnv1a_trigram-Ensures :
    (trigram : Text) (feature_count : ℕ)
    → Ensures (λ i. i < feature_count) (fnv1a_trigram trigram feature_count)
unfolding fnv1a_trigram
fnv1a_trigram-Ensures trigram feature_count = record {
  at = λ i h. ground (arith, h, bit_and-le (fnv1a fnv_offset trigram) (feature_count - 1));
}

trigram_indices-Ensures :
    (count : ℕ) (bytes : Text) (feature_count : ℕ)
    → Ensures
        (λ is. (length is ≡ count) × All (λ i. i < feature_count) is)
        (trigram_indices count bytes feature_count)
unfolding trigram_indices
trigram_indices-Ensures zero bytes feature_count = Ensures-ok _ _ (refl, tt)
trigram_indices-Ensures (suc count) bytes feature_count = Ensures-bind _ _ _ λ index hashed.
    Ensures-bind _ _ _ λ rest later.
      (let facts = (trigram_indices-Ensures count (drop 1 bytes) feature_count).at rest later in
        Ensures-ok _ _ (
          ap suc facts.0,
          ((fnv1a_trigram-Ensures (take 3 bytes) feature_count).at index hashed, facts.1),
        ))

length-normalize_bytes :
    (prompt : Text) (limit : ℕ)
    → Ensures (λ bytes. length bytes ≤ limit) (normalize_bytes prompt limit)
unfolding normalize_bytes
length-normalize_bytes prompt limit = Ensures-bind _ _ _ λ raw encoded.
    Ensures-ok _ _ (omega (arith, length-map (take limit raw) lower_char, length-take limit raw))

-- The features of a prompt are one for each trigram of the bounded bytes, so at most two fewer than
-- the limit, and each lies below the feature count.
pub feature_indices-bounds :
    (prompt : Text) (limit feature_count : ℕ) (indices : List ℕ)
    → feature_indices prompt limit feature_count ≡ ok indices
    → (bytes : Text) × (normalize_bytes prompt limit ≡ ok bytes)
      × (length indices ≡ length bytes - 2)
      × (length indices ≤ limit - 2)
      × All (λ i. i < feature_count) indices
unfolding feature_indices
feature_indices-bounds prompt limit feature_count indices h =
    let (bytes, normalized, found) = bind-eq-ok (normalize_bytes prompt limit) _ h in
    let facts = (trigram_indices-Ensures (length bytes - 2) bytes feature_count).at indices found in
    let short = (length-normalize_bytes prompt limit).at bytes normalized in
    (bytes, normalized, facts.0, omega (arith, facts.0, short), facts.1)
