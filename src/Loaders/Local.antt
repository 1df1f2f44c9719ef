-- ===== src/Loaders/Local.antt =====
-- A load depends on the bytes that it reads only, and its value fits its width.
use libcbor.Base.{ℕ, ◌+◌, ◌*◌, ◌^◌, ◌≤◌, ◌≡◌, ap, arith, List, ◌++◌, length, get_or-append_lt}
use libcbor.Loaders.{FloatOps, byte, load_uint8, load_uint16, load_uint32, load_uint64}
use libcbor.Loaders.{half_value, load_half, load_float, load_double}

module _ (s more : List ℕ) where
  pub load_uint8-append : 1 ≤ length s → load_uint8 (s ++ more) ≡ load_uint8 s
  unfolding load_uint8
  load_uint8-append h = rw (get_or-append_lt s more 0 0 h)

  pub load_uint16-append : 2 ≤ length s → load_uint16 (s ++ more) ≡ load_uint16 s
  unfolding load_uint16
  load_uint16-append h =
      rw (get_or-append_lt s more 0 0 (omega arith), get_or-append_lt s more 1 0 (omega arith))

  pub load_uint32-append : 4 ≤ length s → load_uint32 (s ++ more) ≡ load_uint32 s
  unfolding load_uint32
  load_uint32-append h = rw (
    get_or-append_lt s more 0 0 (omega arith),
    get_or-append_lt s more 1 0 (omega arith),
    get_or-append_lt s more 2 0 (omega arith),
    get_or-append_lt s more 3 0 (omega arith),
  )

  pub load_uint64-append : 8 ≤ length s → load_uint64 (s ++ more) ≡ load_uint64 s
  unfolding load_uint64
  load_uint64-append h = rw (
    get_or-append_lt s more 0 0 (omega arith),
    get_or-append_lt s more 1 0 (omega arith),
    get_or-append_lt s more 2 0 (omega arith),
    get_or-append_lt s more 3 0 (omega arith),
    get_or-append_lt s more 4 0 (omega arith),
    get_or-append_lt s more 5 0 (omega arith),
    get_or-append_lt s more 6 0 (omega arith),
    get_or-append_lt s more 7 0 (omega arith),
  )

  pub load_half-append :
      (ops : FloatOps) → 2 ≤ length s → load_half ops (s ++ more) ≡ load_half ops s
  unfolding load_half
  load_half-append ops h =
      let e : byte (s ++ more) 0 * 2 ^ 8 + byte (s ++ more) 1 ≡ byte s 0 * 2 ^ 8 + byte s 1 =
        rw (get_or-append_lt s more 0 0 (omega arith), get_or-append_lt s more 1 0 (omega arith)) in
      ap (half_value ops) e

  pub load_float-append : 4 ≤ length s → load_float (s ++ more) ≡ load_float s
  unfolding load_float
  load_float-append h = load_uint32-append h

  pub load_double-append : 8 ≤ length s → load_double (s ++ more) ≡ load_double s
  unfolding load_double
  load_double-append h = load_uint64-append h
