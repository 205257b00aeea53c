-- ===== src/Distill/File/RoundTrip.antt =====
-- A model file reads back as the model that was written.
use xsr.Prelude.{
  ==_iff, All, List, Option, Text, arith, drop, drop-append_length, eq_ℤ_refl, false, leb, length,
  length-append, ltb, ltb_ℤ, none, ok, pos, refl, some, subst, take, text_eq, true, ℕ, ℤ, ◌*◌, ◌++◌,
  ◌+◌, ◌<◌, ◌==◌, ◌>>=◌, ◌^◌, ◌≡◌, ◌≤◌,
}
use xsr.Distill.File.Transpose.{columns-Fits8, columns-width, columns_twice, length-columns}
use xsr.Distill.File.Bytes.{
  Fits32, Fits8, le_value-le_bytes_4, le_value-le_bytes_8, length-bias_bytes, length-matrix_bytes,
  read_bias-bias_bytes, read_rows-matrix_bytes,
}
use xsr.Distill.Scores.{class_count}
use xsr.Distill.File.{
  Model, field_at, header_bytes, le_value, model_magic, model_version, bias_bytes, columns,
  header_size, int32_max, matrix_bytes, model_bound, read_bias, read_kernel_model, read_rows,
  write_kernel_model,
}
use xsr.Distill.Features.{prompt_byte_limit, bad_count}

-- A model that the arrays of a `QuantizedModel` can hold: 14 rows of equal width of int8 weights, an
-- int32 bias for each class, and a scale of 64 bits.
pub record IsModel (model : Model) : Type 0 where
  pub classes : length model.weights.rows ≡ class_count
  pub rectangular : All (λ r. length r ≡ model.weights.width) model.weights.rows
  pub int8 : All (All Fits8) model.weights.rows
  pub biases : length model.bias ≡ class_count
  pub int32 : All Fits32 model.bias
  pub scale_fits : model.scale_bits < 2 ^ 64

-- What the header holds, whatever stands behind it.
header_fields :
    (features bound scale : ℕ) (rest : Text)
    → features < 2 ^ 32
    → bound < 2 ^ 32
    → scale < 2 ^ 64
    → let bytes = header_bytes features bound scale ++ rest in
      (take 8 bytes ≡ model_magic)
      × (field_at 8 bytes ≡ model_version)
      × (field_at 12 bytes ≡ class_count)
      × (field_at 16 bytes ≡ features)
      × (field_at 20 bytes ≡ prompt_byte_limit)
      × (field_at 24 bytes ≡ bound)
      × (le_value (take 8 (drop 28 bytes)) ≡ scale)
      × (drop 36 bytes ≡ rest)
      × (length bytes ≡ 36 + length rest)
unfolding header_bytes
header_fields features bound scale rest f b s = (
  refl,
  le_value-le_bytes_4 model_version (omega arith),
  le_value-le_bytes_4 class_count (omega arith),
  le_value-le_bytes_4 features f,
  le_value-le_bytes_4 prompt_byte_limit (omega arith),
  le_value-le_bytes_4 bound b,
  le_value-le_bytes_8 scale s,
  refl,
  omega arith,
)

not_short :
    (n width : ℕ)
    → n ≡ header_size + class_count * 4 + width * class_count
    → ltb n header_size ≡ false
not_short n width h = ground arith

not_above : (bound : ℕ) → bound ≤ int32_max → ltb_ℤ (pos int32_max) (pos bound) ≡ false
not_above bound h = ground arith

leb-lt : (a b : ℕ) → b < a → leb a b ≡ false
leb-lt a b h = ground arith

-- Reading, from what the fields of the file say.
read_of_fields :
    (max_abs : List ℤ → Option ℤ) (bound : ℕ) (bytes : Text) (model : Model) (rows : List (List ℤ))
    → take 8 bytes ≡ model_magic
    → field_at 8 bytes ≡ model_version
    → field_at 12 bytes ≡ class_count
    → field_at 16 bytes ≡ model.weights.width
    → field_at 20 bytes ≡ prompt_byte_limit
    → field_at 24 bytes ≡ bound
    → le_value (take 8 (drop 28 bytes)) ≡ model.scale_bits
    → length bytes ≡ header_size + class_count * 4 + model.weights.width * class_count
    → read_bias class_count (drop header_size bytes) ≡ model.bias
    → read_rows model.weights.width class_count (drop (header_size + class_count * 4) bytes) ≡ rows
    → columns class_count rows ≡ model.weights.rows
    → bad_count model.weights.width ≡ false
    → model_bound max_abs model.bias ≡ some (pos bound)
    → read_kernel_model max_abs bytes none ≡ ok model
unfolding read_kernel_model ◌>>=◌
read_of_fields max_abs bound bytes model rows magic version classes width limit stored scale size
      bias weights back good found =
    let long = not_short (length bytes) model.weights.width size in
    let sized : (length bytes == header_size + class_count * 4 + model.weights.width * class_count)
        ≡ true =
      (==_iff _ _).1 size in
    rw
      (
        long,
        magic,
        version,
        classes,
        limit,
        width,
        good,
        sized,
        bias,
        found,
        stored,
        eq_ℤ_refl (pos bound),
        scale,
        weights,
        back,
      )
      (unfold text_eq in refl)

abbrev body_bytes : Model → Text
body_bytes model =
    bias_bytes model.bias ++ matrix_bytes (columns model.weights.width model.weights.rows)

abbrev file_bytes : Model → ℕ → Text
file_bytes model bound = header_bytes model.weights.width bound model.scale_bits ++ body_bytes model

module _ (model : Model) (is_model : IsModel model) where
  abbrev transposed : List (List ℤ)
  transposed = columns model.weights.width model.weights.rows

  narrow_columns : All (λ c. length c ≡ class_count) transposed
  narrow_columns =
      subst (λ n. All (λ c. length c ≡ n) (columns model.weights.width model.weights.rows))
        is_model.classes (columns-width model.weights.width model.weights.rows)

  bias_size : length (bias_bytes model.bias) ≡ class_count * 4
  bias_size = omega (arith, length-bias_bytes model.bias, is_model.biases)

  matrix_size : length (matrix_bytes transposed) ≡ model.weights.width * class_count
  matrix_size = omega (
    arith,
    length-matrix_bytes transposed class_count narrow_columns,
    length-columns model.weights.width model.weights.rows,
  )

  biases_back : read_bias class_count (body_bytes model) ≡ model.bias
  biases_back =
      rw (← is_model.biases)
        (read_bias-bias_bytes model.bias (matrix_bytes transposed) is_model.int32)

  behind_biases : drop (class_count * 4) (body_bytes model) ≡ matrix_bytes transposed
  behind_biases =
      rw (← bias_size) (drop-append_length (bias_bytes model.bias) (matrix_bytes transposed))

  rows_back : read_rows model.weights.width class_count (matrix_bytes transposed) ≡ transposed
  rows_back =
      subst (λ n. read_rows n class_count (matrix_bytes transposed) ≡ transposed)
        (length-columns model.weights.width model.weights.rows)
        (read_rows-matrix_bytes transposed class_count narrow_columns
          (columns-Fits8 model.weights.width model.weights.rows is_model.int8))

  weights_back : columns class_count transposed ≡ model.weights.rows
  weights_back =
      subst (λ n. columns n transposed ≡ model.weights.rows) is_model.classes
        (columns_twice model.weights.rows model.weights.width is_model.rectangular)

  module _ (max_abs : List ℤ → Option ℤ) (bound : ℕ) (good : bad_count model.weights.width ≡ false)
      (narrow : model.weights.width < 2 ^ 32)
      (found : model_bound max_abs model.bias ≡ some (pos bound))
      (bounded : bound ≤ int32_max) where
    written : write_kernel_model max_abs model ≡ ok (file_bytes model bound)
    unfolding write_kernel_model ◌>>=◌
    written =
        rw
          (
            is_model.classes,
            good,
            is_model.biases,
            found,
            not_above bound bounded,
            leb-lt (2 ^ 32) model.weights.width narrow,
          )
          refl

    read_back : read_kernel_model max_abs (file_bytes model bound) none ≡ ok model
    unfolding read_rows columns header_bytes
    read_back =
        let fields =
          header_fields model.weights.width bound model.scale_bits (body_bytes model) narrow
            (omega arith) is_model.scale_fits in
        read_of_fields max_abs bound (file_bytes model bound) model transposed fields.0 fields.1
          fields.2 fields.3 fields.4 fields.5 fields.6
          (omega (
            arith,
            fields.8,
            length-append (bias_bytes model.bias) (matrix_bytes transposed),
            bias_size,
            matrix_size,
          ))
          (rw fields.7 biases_back) (rw behind_biases rows_back) weights_back good found

    -- A model within the bounds that the writer checks is written, and the file reads back as it,
    -- whatever number `np.max(np.abs(bias))` is.
    pub read-write_kernel_model :
        (bytes : Text) × (write_kernel_model max_abs model ≡ ok bytes)
        × (read_kernel_model max_abs bytes none ≡ ok model)
    read-write_kernel_model = (file_bytes model bound, written, read_back)
