-- ===== src/Streaming.antt =====
-- src/cbor/streaming.c: the streaming decoder, one call of `cbor_stream_decode` at a time.
pub mod Plan
pub mod Contract
pub mod Progress
pub mod Encoded
pub mod EncodedLeaves
mod Events
mod Claims
mod Ints
mod Strings
mod Containers
mod Simple
pub use Events.*
unfoldable pub use Claims.*
unfoldable pub use Ints.*
unfoldable pub use Strings.*
unfoldable pub use Containers.*
unfoldable pub use Simple.*
use libcbor.Base.{ℕ, List, [], ◌∷◌, Option, none, length, if◌then◌else◌, leb}
use libcbor.Loaders.{FloatOps}

-- `struct cbor_decoder_result result = {.status = CBOR_DECODER_FINISHED}` after the claim of the
-- leading byte.
abbrev pub claimed_first : DecoderResult
claimed_first = record { read = 1; status = Status.finished; required = 0 }

module _ (ops : FloatOps) where
  -- The switch on the leading byte, by major type.
  unfoldable pub decode_by_major : ℕ → List ℕ → DecoderResult → Decoded
  unfolding decode_uint decode_negint decode_byte_string decode_string decode_array decode_map
      decode_tag decode_float_ctrl
  decode_by_major byte source result =
      if leb byte 0x1F
      then decode_uint byte source result
      else if leb byte 0x3F
      then decode_negint byte source result
      else if leb byte 0x5F
      then decode_byte_string byte source result
      else if leb byte 0x7F
      then decode_string byte source result
      else if leb byte 0x9F
      then decode_array byte source result
      else if leb byte 0xBF
      then decode_map byte source result
      else if leb byte 0xDF
      then decode_tag byte source result
      else decode_float_ctrl ops byte source result

  -- `source_size` is the length of `source`. The claim of the leading byte fails on no bytes.
  unfoldable pub stream_decode : List ℕ → Decoded
  unfolding claim_bytes decode_by_major
  stream_decode [] = record {
    result = (claim_bytes 1 0 (record { read = 0; status = Status.finished; required = 0 })).1;
    event = none;
  }
  stream_decode (byte ∷ rest) =
      decode_by_major byte (byte ∷ rest)
        (claim_bytes 1 (length (byte ∷ rest))
          (record { read = 0; status = Status.finished; required = 0 })).1
