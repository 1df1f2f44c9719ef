-- ===== src/Tests/Counting.antt =====
-- The theorems about reference counts, UTF-8 and the streaming client on concrete inputs.
use libcbor.Base.{
  true, ℕ, zero, suc, ◌+◌, ◌≤◌, ◌≡◌, ◌≢◌, ◌↔◌, refl, sym, ap, arith, [], ◌∷◌, ◌++◌, some, none,
  false,
}
use libcbor.Refs.{Body, Cell, Store, cell_at, put, incref, decref, move}
use libcbor.Refs.Claims.{IsClean, decref-IsClean, decref-IsFreed, incref-Exact, incref-move}
use libcbor.Refs.Acyclic.{IsAcyclic}
use libcbor.Refs.Exact.{once, Exact, same_cell}
use libcbor.Refs.Store.{count_of, held}
use libcbor.Streaming.{Status, stream_decode}
use libcbor.Streaming.Progress.{stream_decode_live}
use libcbor.Tests.{sample_ops}
use libcbor.Unicode.{UnicodeStatus, codepoint_count}
use libcbor.Unicode.Equivalence.{codepoint_count-IsText}
use libcbor.Unicode.Grammar.{IsText}

-- "é€" and a zero byte.
codepoint_count-IsText_example :
    (codepoint_count (0xC3 ∷ 0xA9 ∷ 0xE2 ∷ 0x82 ∷ 0xAC ∷ 0 ∷ []) ≡ (3, UnicodeStatus.ok))
    ↔ IsText (0xC3 ∷ 0xA9 ∷ 0xE2 ∷ 0x82 ∷ 0xAC ∷ 0 ∷ []) 3
codepoint_count-IsText_example =
    codepoint_count-IsText (0xC3 ∷ 0xA9 ∷ 0xE2 ∷ 0x82 ∷ 0xAC ∷ 0 ∷ []) 3
      (omega arith, (omega arith, (omega arith, (omega arith, (omega arith, (omega arith, tt))))))

-- An array at 0 that holds the integer at 1 twice, which the caller holds too.
abbrev sample_store : Store
sample_store =
    record { refcount = 1; freed = false; body = Body.array (some 1 ∷ none ∷ some 1 ∷ []) }
    ∷ record { refcount = 3; freed = false; body = Body.int }
    ∷ []

sample_counts :
    (x : ℕ) → count_of (cell_at sample_store x) ≡ once 1 x + once 0 x + held sample_store x
sample_counts zero = refl
sample_counts (suc zero) = refl
sample_counts (suc (suc n)) = ground arith

sample_kept :
    (x : ℕ) (c : Cell) → cell_at sample_store x ≡ some c → 1 ≤ c.refcount → c.freed ≡ false
sample_kept zero c e z = ap (λ (d : Cell). d.freed) (sym (same_cell e))
sample_kept (suc zero) c e z = ap (λ (d : Cell). d.freed) (sym (same_cell e))
sample_kept (suc (suc n)) c e z = cc

sample_store-Exact : Exact (λ y. once 1 y + once 0 y) sample_store
sample_store-Exact = record { counts = sample_counts; kept = sample_kept }

sample_store-IsClean : IsClean sample_store
sample_store-IsClean zero c e z =
    absurd (omega (arith, z, ap (λ (d : Cell). d.refcount) (same_cell e)))
sample_store-IsClean (suc zero) c e z =
    absurd (omega (arith, z, ap (λ (d : Cell). d.refcount) (same_cell e)))
sample_store-IsClean (suc (suc n)) c e z = cc

decref-IsClean_example :
    (h : Store) × (decref 4 sample_store 0 ≡ some h) × Exact (once 1) h × IsClean h
decref-IsClean_example =
    decref-IsClean sample_store 0 (once 1) 4 (omega arith) sample_store-Exact sample_store-IsClean

incref-Exact_example :
    (h : Store) × (incref sample_store 1 ≡ some h) × Exact (λ x. once 1 x + once 0 x + once 1 x) h
incref-Exact_example =
    incref-Exact sample_store 1 (record { refcount = 3; freed = false; body = Body.int })
      (λ y. once 1 y + once 0 y) sample_store-Exact refl (omega arith) (omega arith)

abbrev counted_up : Store
counted_up = put sample_store 1 (record { refcount = 4; freed = false; body = Body.int })

counted_up_lem : incref sample_store 1 ≡ some counted_up
unfolding incref
counted_up_lem = refl

incref-move_example : move counted_up 1 ≡ some sample_store
incref-move_example =
    incref-move sample_store counted_up 1 (record { refcount = 3; freed = false; body = Body.int })
      refl refl (omega arith) counted_up_lem

stream_decode_live_example :
    (stream_decode sample_ops (0x58 ∷ (([] ++ 0x02 ∷ []) ++ 1 ∷ 2 ∷ []))).result.status
    ≢ Status.nedata
unfolding stream_decode
stream_decode_live_example =
    stream_decode_live sample_ops 0x58 [] (0x02 ∷ []) (1 ∷ 2 ∷ []) (omega arith)
      (refl, omega arith, omega arith) (refl, omega arith, omega arith)

-- An integer at 0 that the tag at 1 holds, which the caller holds.
abbrev tagged_store : Store
tagged_store =
    record { refcount = 1; freed = false; body = Body.int }
    ∷ record { refcount = 1; freed = false; body = Body.tag (some 0) }
    ∷ []

tagged_counts : (x : ℕ) → count_of (cell_at tagged_store x) ≡ once 1 x + held tagged_store x
tagged_counts zero = refl
tagged_counts (suc zero) = refl
tagged_counts (suc (suc n)) = ground arith

tagged_kept :
    (x : ℕ) (c : Cell) → cell_at tagged_store x ≡ some c → 1 ≤ c.refcount → c.freed ≡ false
tagged_kept zero c e z = ap (λ (d : Cell). d.freed) (sym (same_cell e))
tagged_kept (suc zero) c e z = ap (λ (d : Cell). d.freed) (sym (same_cell e))
tagged_kept (suc (suc n)) c e z = cc

tagged_store-IsClean : IsClean tagged_store
tagged_store-IsClean zero c e z =
    absurd (omega (arith, z, ap (λ (d : Cell). d.refcount) (same_cell e)))
tagged_store-IsClean (suc zero) c e z =
    absurd (omega (arith, z, ap (λ (d : Cell). d.refcount) (same_cell e)))
tagged_store-IsClean (suc (suc n)) c e z = cc

tagged_store-IsAcyclic : IsAcyclic tagged_store
tagged_store-IsAcyclic zero c e = rw (← same_cell e) tt
tagged_store-IsAcyclic (suc zero) c e = rw (← same_cell e) (omega arith, tt)
tagged_store-IsAcyclic (suc (suc n)) c e = cc

decref-IsFreed_example :
    (h : Store) × (decref 2 tagged_store 1 ≡ some h)
    × ((x : ℕ) (c : Cell) → cell_at h x ≡ some c → c.freed ≡ true)
decref-IsFreed_example =
    decref-IsFreed tagged_store 1 2 (omega arith)
      (record { counts = tagged_counts; kept = tagged_kept }) tagged_store-IsClean
      tagged_store-IsAcyclic
