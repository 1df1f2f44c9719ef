-- ===== src/Encoding/Floats.antt =====
-- src/cbor/encoding.c: the encoders of floats, over the bit patterns of `float` and `double`.
use Prim.Native.Nat.{bit_or}
use libcbor.Base.{ℕ, ◌+◌, ◌-◌, ◌*◌, ◌/◌, ◌%◌, ◌^◌, Bool, true, if◌then◌else◌, ltb, ◌==◌}
use libcbor.Encoders.{Output, nothing, encode_uint16_at, encode_uint32_at, encode_uint64_at}
use libcbor.Loaders.{FloatOps}

-- The half of `res` in `cbor_encode_half` for a number that is not zero and has no biased exponent
-- of 255. With `logical_exp` for exp - 127: `logical_exp < -24` is `exp < 103`,
-- `logical_exp < -14` is `exp < 113`, `24u + logical_exp` is exp - 103, `-logical_exp - 2` is
-- 125 - exp, and `(uint8_t)logical_exp` is (exp + 129) % 256. The casts to uint16_t are `% 2 ^ 16`.
unfoldable pub half_of_normal : ℕ → ℕ → ℕ → ℕ
half_of_normal sign exp mant =
    if ltb exp 103
    then 0
    else (if ltb exp 113
        then bit_or (sign % 2 ^ 16)
            (2 ^ (exp - 103) % 2 ^ 16 + (mant / 2 ^ (125 - exp) + 1) / 2 % 2 ^ 16)
          % 2 ^ 16
        else bit_or (bit_or sign (((exp + 129) % 256 + 15) * 2 ^ 10)) (mant / 2 ^ 13 % 2 ^ 16)
          % 2 ^ 16)

module _ (ops : FloatOps) where
  -- `res` of `cbor_encode_half`; `sign` is `(val & 0x80000000u) >> 16u`.
  unfoldable pub half_bits : ℕ → ℕ
  unfolding half_of_normal
  half_bits val =
      let exp = val / 2 ^ 23 % 2 ^ 8 in
      let mant = val % 2 ^ 23 in
      let sign = val / 2 ^ 31 % 2 * 2 ^ 15 in
      if exp == 0xFF
      then (if ops.isnan_float val then 0x7E00 else bit_or sign 0x7C00 % 2 ^ 16)
      else if exp == 0x00
      then bit_or sign (mant / 2 ^ 13) % 2 ^ 16
      else half_of_normal sign exp mant

  -- `CBOR_ASSERT(mant == 0u)`, for what has the exponent of infinity and is no NaN. The other assertion,
  -- that exp - 127 fits an int8_t, is on an exponent from 1 to 254.
  unfoldable pub half_asserts : ℕ → Bool
  half_asserts val =
      if val / 2 ^ 23 % 2 ^ 8 == 0xFF
      then (if ops.isnan_float val then true else val % 2 ^ 23 == 0)
      else true

  -- Nothing is written where the assertion fails.
  unfoldable pub encode_half : ℕ → ℕ → Output
  unfolding half_bits half_asserts encode_uint16_at
  encode_half value buffer_size =
      if half_asserts value then encode_uint16_at (half_bits value) buffer_size 0xE0 else nothing

  unfoldable pub encode_single : ℕ → ℕ → Output
  unfolding encode_uint32_at
  encode_single value buffer_size =
      if ops.isnan_float value
      then encode_uint32_at (0x7FC0 * 2 ^ 16) buffer_size 0xE0
      else encode_uint32_at value buffer_size 0xE0

  unfoldable pub encode_double : ℕ → ℕ → Output
  unfolding encode_uint64_at
  encode_double value buffer_size =
      if ops.isnan_double value
      then encode_uint64_at (0x7FF8 * 2 ^ 48) buffer_size 0xE0
      else encode_uint64_at value buffer_size 0xE0
