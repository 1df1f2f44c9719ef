-- ===== src/Loaders.antt =====
-- src/cbor/internal/loaders.c: big-endian numbers and floats read from the source. A load reads
-- `source[i]` where its caller has claimed the bytes; past the end the model reads 0.
pub mod RoundTrip
pub mod Local
use libcbor.Base.{ℕ, ◌+◌, ◌*◌, ◌/◌, ◌%◌, ◌^◌, ◌≡◌, List, [], ◌∷◌}
use libcbor.Base.{get_or, if◌then◌else◌, ◌==◌, ℤ, negsuc, sub_ℕ, Bool, ltb}

-- `source[i]`.
abbrev pub byte : List ℕ → ℕ → ℕ
byte source i = get_or source i 0

unfoldable pub load_uint8 : List ℕ → ℕ
load_uint8 source = byte source 0 % 2 ^ 8

unfoldable pub load_uint16 : List ℕ → ℕ
load_uint16 source = (byte source 0 * 2 ^ 8 + byte source 1) % 2 ^ 16

unfoldable pub load_uint32 : List ℕ → ℕ
load_uint32 source =
    (byte source 0 * 2 ^ 0x18 + byte source 1 * 2 ^ 0x10 + byte source 2 * 2 ^ 0x08 + byte source 3)
    % 2 ^ 32

unfoldable pub load_uint64 : List ℕ → ℕ
load_uint64 source =
    (byte source 0 * 2 ^ 0x38
      + byte source 1 * 2 ^ 0x30
      + byte source 2 * 2 ^ 0x28
      + byte source 3 * 2 ^ 0x20
      + byte source 4 * 2 ^ 0x18
      + byte source 5 * 2 ^ 0x10
      + byte source 6 * 2 ^ 0x08
      + byte source 7)
    % 2 ^ 64

-- The C library's and the compiler's floating point, over the bit patterns of `float` and `double`.
-- None of it is code of this repository. What is assumed of it: a float is a NaN where its exponent
-- is all ones and its fraction is not 0, as IEEE 754 has it.
pub record FloatOps : Type 0 where
  -- `ldexp(mant, exp)`, as a double.
  pub ldexp : ℕ → ℤ → ℕ
  -- `-val` on doubles, and the conversion `(float)val`.
  pub negate : ℕ → ℕ
  pub to_float : ℕ → ℕ
  -- `INFINITY` and `NAN`, as doubles.
  pub infinity : ℕ
  pub nan : ℕ
  -- `isnan` on a float and on a double.
  pub isnan_float : ℕ → Bool
  pub isnan_double : ℕ → Bool
  pub isnan_float_law : (v : ℕ) → isnan_float v ≡ ltb (255 * 2 ^ 23) (v % 2 ^ 31)

-- A float and a double are read as their bit patterns.
unfoldable pub load_float : List ℕ → ℕ
unfolding load_uint32
load_float source = load_uint32 source

unfoldable pub load_double : List ℕ → ℕ
unfolding load_uint64
load_double source = load_uint64 source

module _ (ops : FloatOps) where
  -- The float that 16 bits stand for: `half >> 10 & 0x1f` is the exponent, `half & 0x3ff` the
  -- mantissa, `half & 0x8000` the sign.
  unfoldable pub half_value : ℕ → ℕ
  half_value half =
      let exp = half / 2 ^ 10 % 2 ^ 5 in
      let mant = half % 2 ^ 10 in
      let val =
        if exp == 0
        then ops.ldexp mant (negsuc 23)
        else if exp == 31
        then (if mant == 0 then ops.infinity else ops.nan)
        else ops.ldexp (mant + 1024) (sub_ℕ exp 25) in
      ops.to_float (if half / 2 ^ 15 % 2 == 0 then val else ops.negate val)

  -- `_cbor_decode_half`, to the bit pattern of a float.
  unfoldable pub decode_half : List ℕ → ℕ
  unfolding half_value
  decode_half halfp = half_value (byte halfp 0 * 2 ^ 8 + byte halfp 1)

  unfoldable pub load_half : List ℕ → ℕ
  unfolding decode_half
  load_half source = decode_half source
