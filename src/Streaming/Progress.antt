-- ===== src/Streaming/Progress.antt =====
-- A client of `cbor_stream_decode` that reads as many bytes as `required` says.
use libcbor.Base.{ℕ, suc, ◌≤◌, ◌<◌, ◌≡◌, ◌≢◌, arith, List, ◌∷◌, ◌++◌, length, length-append}
use libcbor.Loaders.{FloatOps}
use libcbor.Streaming.{Status, Decoded, stream_decode}
use libcbor.Streaming.Plan.{Plan, follow}
use libcbor.Streaming.Plan.Local.{IsLocal, plan-IsLocal}
use libcbor.Streaming.Plan.Switch.{stream_decode-plan}

-- The decoder asks for more bytes than it was given, and gets them.
abbrev pub Grants : Decoded → ℕ → ℕ → Type 0
Grants d size size' =
    (d.result.status ≡ Status.nedata) × (size < d.result.required) × (d.result.required ≤ size')

follow_live :
    {p : Plan}
    → IsLocal p
    → (s t u : List ℕ) → Grants (follow p s) (suc (length s)) (suc (length (s ++ t)))
    → Grants (follow p (s ++ t)) (suc (length (s ++ t))) (suc (length ((s ++ t) ++ u)))
    → (follow p ((s ++ t) ++ u)).result.status ≢ Status.nedata
unfolding follow
follow_live (IsLocal.now event) s t u g g' e = cc
follow_live IsLocal.refuse s t u g g' e = cc
follow_live (IsLocal.fixed {n} small reads) s t u g g' e = ground (arith, length-append s t)
follow_live (IsLocal.counted {k} {count} small fits reads) s t u g g' e = ground (
  arith,
  length-append s t,
  length-append (s ++ t) u,
  reads s t,
  reads (s ++ t) u,
  fits s,
  fits (s ++ t),
)

-- A client that is asked twice for more bytes than it has given, and both times goes on until it has
-- as many as it was asked for, is not asked a third time: behind a byte, NEDATA comes at most twice.
pub stream_decode_live :
    (ops : FloatOps) (b : ℕ) (s t u : List ℕ)
    → b < 256
    → Grants (stream_decode ops (b ∷ s)) (length (b ∷ s)) (length (b ∷ (s ++ t)))
    → Grants
        (stream_decode ops (b ∷ (s ++ t)))
        (length (b ∷ (s ++ t)))
        (length (b ∷ ((s ++ t) ++ u)))
    → (stream_decode ops (b ∷ ((s ++ t) ++ u))).result.status ≢ Status.nedata
stream_decode_live ops b s t u h g g' = rw (stream_decode-plan ops b ((s ++ t) ++ u) h) (
    follow_live (plan-IsLocal ops b) s t u (rw (stream_decode-plan ops b s h) at g)
      (rw (stream_decode-plan ops b (s ++ t) h) at g'))
