-- ===== src/Distill/File.antt =====
-- `write_kernel_model` and `read_kernel_model` of benchmarks/lora_distill/core.py: a file is the list
-- of its bytes.
pub mod Bytes
pub mod Transpose
pub mod RoundTrip
use xsr.Prelude.{
  Bool, List, Option, Result, Text, [], codes, drop, eq_ℤ, err, false, if◌then◌else◌, leb, length,
  ltb, ltb_ℤ, map, negsuc, none, not, ok, pos, refuse, some, suc, take, text_eq, true, zero, ℕ, ℤ,
  ◌%◌, ◌&&◌, ◌*◌, ◌++◌, ◌+◌, ◌-◌, ◌/◌, ◌==◌, ◌^◌, ◌||◌, ◌∷◌, ◌>>=◌, ◌>>◌,
}
use xsr.Distill.Scores.{Matrix, class_count, overflow_bound}
use xsr.Distill.Features.{
  ModelError, bad_bias_shape, bad_count, bad_size, bad_weight_shape, bound_exceeded, bound_mismatch,
  incompatible_header, not_power_of_two, prompt_byte_limit, struct_error, wrong_bucket_count,
  empty_array,
}

-- `n` in `count` bytes, the lowest first.
pub le_bytes : ℕ → ℕ → Text
le_bytes zero n = []
le_bytes (suc count) n = (n % 256) ∷ le_bytes count (n / 256)

pub le_value : Text → ℕ
le_value [] = 0
le_value (b ∷ bytes) = b + 256 * le_value bytes

-- A signed integer of `bits` bits, as the number with the same bits.
pub to_bits : ℕ → ℤ → ℕ
to_bits bits (pos n) = n
to_bits bits (negsuc n) = 2 ^ bits - suc n

pub from_bits : ℕ → ℕ → ℤ
from_bits bits n = if ltb n (2 ^ (bits - 1)) then pos n else negsuc (2 ^ bits - n - 1)

-- bias.astype("<i4").tobytes()
pub bias_bytes : List ℤ → Text
unfolding le_bytes to_bits
bias_bytes [] = []
bias_bytes (b ∷ bias) = le_bytes 4 (to_bits 32 b) ++ bias_bytes bias

pub read_bias : ℕ → Text → List ℤ
unfolding le_value from_bits
read_bias zero bytes = []
read_bias (suc count) bytes =
    from_bits 32 (le_value (take 4 bytes)) ∷ read_bias count (drop 4 bytes)

abbrev pub head_or : List ℤ → ℤ
head_or [] = pos 0
head_or (x ∷ xs) = x

abbrev pub tail_of : List ℤ → List ℤ
tail_of [] = []
tail_of (x ∷ xs) = xs

-- The first `count` columns of a matrix, as rows.
pub columns : ℕ → List (List ℤ) → List (List ℤ)
columns zero rows = []
columns (suc count) rows = map head_or rows ∷ columns count (map tail_of rows)

pub row_bytes : List ℤ → Text
row_bytes [] = []
row_bytes (w ∷ row) = to_bits 8 w ∷ row_bytes row

pub matrix_bytes : List (List ℤ) → Text
unfolding row_bytes
matrix_bytes [] = []
matrix_bytes (row ∷ rows) = row_bytes row ++ matrix_bytes rows

-- reshape(count, width) of the signed bytes
pub read_rows : ℕ → ℕ → Text → List (List ℤ)
unfolding from_bits
read_rows zero width bytes = []
read_rows (suc count) width bytes =
    map (from_bits 8) (take width bytes) ∷ read_rows count width (drop width bytes)

pub record Model : Type 0 where
  pub weights : Matrix
  pub bias : List ℤ
  pub scale_bits : ℕ

-- MODEL_MAGIC
abbrev pub model_magic : Text
model_magic = codes "XSRFNV14"

abbrev pub model_version : ℕ
model_version = 1

abbrev pub int32_max : ℕ
int32_max = 2 ^ 31 - 1

abbrev pub default_weight_bound : ℕ
default_weight_bound = 127

abbrev pub or_empty : Option ℤ → Result ModelError ℤ
or_empty none = err empty_array
or_empty (some n) = ok n

abbrev pub is_negative : ℤ → Bool
is_negative (pos n) = false
is_negative (negsuc n) = true

abbrev pub as_natural : ℤ → ℕ
as_natural (pos n) = n
as_natural (negsuc n) = 0

-- struct.pack("<8sIIIIId", …)
pub header_bytes : ℕ → ℕ → ℕ → Text
unfolding le_bytes
header_bytes feature_count bound scale_bits =
    model_magic
    ++ (le_bytes 4 model_version
        ++ (le_bytes 4 class_count
            ++ (le_bytes 4 feature_count
                ++ (le_bytes 4 prompt_byte_limit ++ (le_bytes 4 bound ++ le_bytes 8 scale_bits)))))

abbrev pub header_size : ℕ
header_size = 36

-- A field of four bytes of the header.
abbrev pub field_at : ℕ → Text → ℕ
field_at offset bytes = le_value (take 4 (drop offset bytes))

-- `required_feature_count is not None and features != required_feature_count`
abbrev pub differs : Option ℕ → ℕ → Bool
differs none features = false
differs (some required) features = not (features == required)

abbrev pub deployment_feature_count : ℕ
deployment_feature_count = 8192

-- `overflow_bound(bias)`, as `max_abs` finds it
module _ (max_abs : List ℤ → Option ℤ) where
  abbrev pub model_bound : List ℤ → Option ℤ
  model_bound bias = overflow_bound max_abs bias prompt_byte_limit default_weight_bound

  -- `struct.pack` refuses a number that four bytes without a sign do not hold.
  unfoldable pub write_kernel_model : Model → Result ModelError Text
  unfolding header_bytes bias_bytes matrix_bytes columns
  write_kernel_model model = do
    refuse (not (length model.weights.rows == class_count)) bad_weight_shape
    refuse (bad_count model.weights.width) not_power_of_two
    refuse (not (length model.bias == class_count)) bad_bias_shape
    bound ← or_empty (model_bound model.bias)
    refuse (ltb_ℤ (pos int32_max) bound) bound_exceeded
    refuse (leb (2 ^ 32) model.weights.width || is_negative bound) struct_error
    ok (
        header_bytes model.weights.width (as_natural bound) model.scale_bits
        ++ (bias_bytes model.bias ++ matrix_bytes (columns model.weights.width model.weights.rows)))

  unfoldable pub read_kernel_model : Text → Option ℕ → Result ModelError Model
  unfolding read_bias read_rows columns le_value
  read_kernel_model bytes required = do
    refuse (ltb (length bytes) header_size) struct_error
    let features = field_at 16 bytes
    refuse
        (not (
            text_eq (take 8 bytes) model_magic
            && field_at 8 bytes == model_version
            && field_at 12 bytes == class_count
            && field_at 20 bytes == prompt_byte_limit)
          || bad_count features)
        incompatible_header
    refuse (differs required features) wrong_bucket_count
    refuse (not (length bytes == header_size + class_count * 4 + features * class_count)) bad_size
    let bias = read_bias class_count (drop header_size bytes)
    let rows = read_rows features class_count (drop (header_size + class_count * 4) bytes)
    bound ← or_empty (model_bound bias)
    refuse (not (eq_ℤ bound (pos (field_at 24 bytes)))) bound_mismatch
    ok (record {
      weights = record { width = features; rows = columns class_count rows };
      bias = bias;
      scale_bits = le_value (take 8 (drop 28 bytes));
    })

  unfoldable pub read_deployment_model : Text → Result ModelError Model
  read_deployment_model bytes = read_kernel_model bytes (some deployment_feature_count)
