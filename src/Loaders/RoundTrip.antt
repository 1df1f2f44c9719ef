-- ===== src/Loaders/RoundTrip.antt =====
-- The loaders read back the bytes that the header encoders write.
use libcbor.Base.{ℕ, ◌^◌, ◌<◌, ◌≡◌, arith, List, ◌∷◌}
use libcbor.Encoders.{byte_at}
use libcbor.Loaders.{load_uint8, load_uint16, load_uint32, load_uint64}

pub load_uint8-bytes : (v : ℕ) (rest : List ℕ) → v < 2 ^ 8 → load_uint8 (v ∷ rest) ≡ v
unfolding load_uint8
load_uint8-bytes v rest h = omega arith

pub load_uint16-bytes :
    (v : ℕ) (rest : List ℕ) → v < 2 ^ 16 → load_uint16 (byte_at 8 v ∷ byte_at 0 v ∷ rest) ≡ v
unfolding load_uint16
load_uint16-bytes v rest h = omega arith

pub load_uint32-bytes :
    (v : ℕ) (rest : List ℕ)
    → v < 2 ^ 32
    → load_uint32 (byte_at 24 v ∷ byte_at 16 v ∷ byte_at 8 v ∷ byte_at 0 v ∷ rest) ≡ v
unfolding load_uint32
load_uint32-bytes v rest h = omega arith

pub load_uint64-bytes :
    (v : ℕ) (rest : List ℕ)
    → v < 2 ^ 64
    → load_uint64 (
        byte_at 56 v
        ∷ byte_at 48 v
        ∷ byte_at 40 v
        ∷ byte_at 32 v
        ∷ byte_at 24 v
        ∷ byte_at 16 v
        ∷ byte_at 8 v
        ∷ byte_at 0 v
        ∷ rest)
      ≡ v
unfolding load_uint64
load_uint64-bytes v rest h = omega arith
