-- ===== src/Serialization/Emits.antt =====
-- What it means for an encoder of serialization.c to write a list of bytes: all of it where it fits,
-- a return of 0 where it does not, and never more bytes than the buffer has.
use libcbor.Base.{ℕ, ◌-◌, ◌≤◌, ◌<◌, ◌^◌, ◌≡◌, arith}
use libcbor.Base.{List, [], ◌∷◌, ◌++◌, length, length-append}
use libcbor.Encoders.{Output}
use libcbor.Encoders.{
  encode_uint8_at, encode_uint16_at, encode_uint32_at, encode_uint64_at, encode_uint_at,
}
use libcbor.Encoders.Headers.{Writes, header8, header16, header32, header64, header}
use libcbor.Encoders.Headers.{
  encode_uint8_at-Writes, encode_uint16_at-Writes, encode_uint32_at-Writes, encode_uint64_at-Writes,
  encode_uint_at-Writes,
}
use libcbor.Encoding.{encode_byte}
use libcbor.Serialization.{write_counted, write_next}
use native.Mathlib.Decide.{dec_le}

-- The outcome `out` of writing `bytes` into `size` bytes of buffer.
pub record Holds (size : ℕ) (bytes : List ℕ) (out : Output) : Type 0 where
  pub fits : length bytes ≤ size → out ≡ record { written = length bytes; stored = bytes }
  pub fails : size < length bytes → out.written ≡ 0
  pub within : length out.stored ≤ size

-- An encoder of `bytes`, which are not empty, for every size of the buffer.
pub record Emits (encode : ℕ → Output) (bytes : List ℕ) : Type 0 where
  pub nonempty : 1 ≤ length bytes
  pub holds : (size : ℕ) → Holds size bytes (encode size)

Writes-Emits :
    (encode : ℕ → Output) (bytes : List ℕ)
    → 1 ≤ length bytes
    → Writes encode bytes
    → Emits encode bytes
Writes-Emits encode bytes h w = record {
  nonempty = h;
  holds = λ size. record {
    fits = λ k. ground (arith, w size);
    fails = λ k. ground (arith, w size);
    within = ground (arith, w size);
  };
}

-- Behind `bytes`, which fit.
write_next_fitting :
    (size : ℕ) (encode : ℕ → Output) (bytes more : List ℕ)
    → 1 ≤ length bytes
    → length bytes ≤ size
    → 1 ≤ length more
    → Holds (size - length bytes) more (encode (size - length bytes))
    → Holds size
        (bytes ++ more)
        (write_next size encode (record { written = length bytes; stored = bytes }))
unfolding write_next
write_next_fitting size encode bytes more h k g e = record {
  fits = λ p. ground (arith, length-append bytes more, e.fits);
  fails = λ p. ground (arith, length-append bytes more, e.fails);
  within = ground (arith, length-append bytes (encode (size - length bytes)).stored, e.within);
}

-- Where `bytes` did not fit, the function has returned 0.
write_next_failed :
    (size : ℕ) (encode : ℕ → Output) (so_far : Output)
    → so_far.written ≡ 0
    → write_next size encode so_far ≡ so_far
unfolding write_next
write_next_failed size encode so_far e = ground arith

pub write_next-Holds :
    {size : ℕ} {encode : ℕ → Output} {so_far : Output} {bytes more : List ℕ}
    → 1 ≤ length bytes
    → Holds size bytes so_far
    → Emits encode more
    → Holds size (bytes ++ more) (write_next size encode so_far)
write_next-Holds {size} {encode} {so_far} {bytes} {more} h before e =
    elim (dec_le (length bytes) size) [
      | yes p ↦
          rw (before.fits p) (
            write_next_fitting size encode bytes more h p e.nonempty
              (e.holds (size - length bytes)))
      | no n ↦
          let failed = before.fails (omega arith) in
          rw (write_next_failed size encode so_far failed) (record {
            fits = λ p. absurd (omega (arith, length-append bytes more));
            fails = λ p. failed;
            within = before.within;
          })
    ]

pub header-Emits :
    (value offset : ℕ)
    → value < 2 ^ 64
    → offset ≤ 0xE0
    → Emits (λ size. encode_uint_at value size offset) (header offset value)
header-Emits value offset h k =
    Writes-Emits _ _ (unfold header in ground arith) (encode_uint_at-Writes value offset h k)

pub header8-Emits :
    (value offset : ℕ)
    → offset ≤ 0xE0
    → Emits (λ size. encode_uint8_at value size offset) (header8 offset value)
header8-Emits value offset h =
    Writes-Emits _ _ (unfold header8 in ground arith) (encode_uint8_at-Writes value offset h)

pub header16-Emits :
    (value offset : ℕ)
    → offset ≤ 0xE0
    → Emits (λ size. encode_uint16_at value size offset) (header16 offset value)
header16-Emits value offset h =
    Writes-Emits _ _ (unfold header16 in omega arith) (encode_uint16_at-Writes value offset h)

pub header32-Emits :
    (value offset : ℕ)
    → offset ≤ 0xE0
    → Emits (λ size. encode_uint32_at value size offset) (header32 offset value)
header32-Emits value offset h =
    Writes-Emits _ _ (unfold header32 in omega arith) (encode_uint32_at-Writes value offset h)

pub header64-Emits :
    (value offset : ℕ)
    → offset ≤ 0xE0
    → Emits (λ size. encode_uint64_at value size offset) (header64 offset value)
header64-Emits value offset h =
    Writes-Emits _ _ (unfold header64 in omega arith) (encode_uint64_at-Writes value offset h)

pub encode_byte-Emits : (value : ℕ) → Emits (encode_byte value) (value ∷ [])
unfolding encode_byte
encode_byte-Emits value = Writes-Emits _ _ (omega arith) (λ size. ground arith)

-- A counted string behind its header.
pub write_counted-Emits :
    {start : ℕ → Output} {head : List ℕ} (bytes : List ℕ)
    → Emits start head
    → Emits (λ size. write_counted (start size) bytes size) (head ++ bytes)
unfolding write_counted
write_counted-Emits {start} {head} bytes e = record {
  nonempty = omega (arith, length-append head bytes, e.nonempty);
  holds = λ size. record {
    fits = λ p. ground (arith, length-append head bytes, e.nonempty, (e.holds size).fits);
    fails = λ p.
        ground
          (arith, length-append head bytes, e.nonempty, (e.holds size).fits, (e.holds size).fails);
    within = ground (
      arith,
      length-append head bytes,
      length-append (start size).stored bytes,
      e.nonempty,
      (e.holds size).fits,
      (e.holds size).fails,
      (e.holds size).within,
    );
  };
}
