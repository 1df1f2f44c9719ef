-- ===== src/Load/RoundTrip.antt =====
-- src/cbor.c and src/cbor/serialization.c together: what is serialized is loaded again.
use libcbor.Base.{ℕ, suc, ◌≤◌, ◌≡◌, arith, List, [], ◌∷◌, ◌++◌, append-nil}
use libcbor.Base.{some, none, length, length-append}
use libcbor.Builder.{max_stack_size, append_to}
use libcbor.Builder.Plenty.{always, clean}
use libcbor.Items.{Item, Items, Pairs, IsTyped, AreTyped, PairsAreTyped}
use libcbor.Load.{Loaded, LoadResult, loaded, load}
use libcbor.Load.Decoded.{decoded, depth, IsLoadable, AreLoadable, PairsAreLoadable}
use libcbor.Load.Runs.{Runs-wire}
use libcbor.Load.Steps.{Runs, After}
use libcbor.Loaders.{FloatOps}
use libcbor.Serialization.{serialize}
use libcbor.Serialization.Refines.{serialize-Emits}
use libcbor.Serialization.Wire.{wire}

load-Runs :
    (ops : FloatOps) (source : List ℕ) (before : LoadResult) (result : Loaded)
    → 1 ≤ length source
    → Runs ops (length source) result source (clean none [])
    → load ops always source before ≡ some result
unfolding load
load-Runs ops [] before result pos h = absurd (omega arith)
load-Runs ops (b ∷ source) before result pos h =
    h (suc (length (b ∷ source))) 0 (omega arith) (omega arith)

mutual
  IsLoadable-IsTyped : (x : Item) → IsLoadable x → IsTyped x
  IsLoadable-IsTyped (Item.uint w v) h = h
  IsLoadable-IsTyped (Item.negint w v) h = h
  IsLoadable-IsTyped (Item.bytestring bytes) h = h
  IsLoadable-IsTyped (Item.indef_bytestring capacity chunks) h = h.1
  IsLoadable-IsTyped (Item.string s) h = h
  IsLoadable-IsTyped (Item.indef_string capacity chunks) h = h.1
  IsLoadable-IsTyped (Item.array d allocated xs) h =
      (omega (arith, h.0), AreLoadable-AreTyped xs h.1)
  IsLoadable-IsTyped (Item.map d allocated ps) h =
      (omega (arith, h.0), PairsAreLoadable-Typed ps h.1)
  IsLoadable-IsTyped (Item.tag v x) h = (h.0, IsLoadable-IsTyped x h.1)
  IsLoadable-IsTyped (Item.ctrl v) h = omega (arith, h.1)
  IsLoadable-IsTyped (Item.float2 v) h = h
  IsLoadable-IsTyped (Item.float4 v) h = h
  IsLoadable-IsTyped (Item.float8 v) h = h

  AreLoadable-AreTyped : (xs : Items) → AreLoadable xs → AreTyped xs
  AreLoadable-AreTyped Items.nil h = tt
  AreLoadable-AreTyped (Items.cons x xs) h = (IsLoadable-IsTyped x h.0, AreLoadable-AreTyped xs h.1)

  PairsAreLoadable-Typed : (ps : Pairs) → PairsAreLoadable ps → PairsAreTyped ps
  PairsAreLoadable-Typed Pairs.end h = tt
  PairsAreLoadable-Typed (Pairs.pair k v ps) h =
      (IsLoadable-IsTyped k h.0, IsLoadable-IsTyped v h.1, PairsAreLoadable-Typed ps h.2)

After-item :
    (ops : FloatOps) (bytes rest : List ℕ) (x : Item)
    → After ops
        (length (bytes ++ rest))
        (loaded (some x) (length bytes))
        rest
        (append_to [] x (clean none []))
unfolding append_to
After-item ops bytes rest x fuel read enough all =
    let e : read ≡ length bytes = omega (arith, all, length-append bytes rest) in rw e

-- Where no allocation fails, cbor_load reads from the encoding of an item, whatever lies behind it,
-- the whole encoding and no more, and returns the item as the decoder represents it. The item's values
-- fit their types, its containers have less than 2 ^ 55 members, its simple values are false, true,
-- null and undefined, and it is nested no deeper than CBOR_MAX_STACK_SIZE.
pub load-wire :
    (ops : FloatOps) (x : Item) (rest : List ℕ) (before : LoadResult)
    → IsLoadable x
    → depth x ≤ max_stack_size
    → load ops always (wire ops x ++ rest) before
      ≡ some (loaded (some (decoded ops x)) (length (wire ops x)))
load-wire ops x rest before h shallow =
    let size = length-append (wire ops x) rest in
    load-Runs ops (wire ops x ++ rest) before _
      (omega (arith, size, (serialize-Emits ops x (IsLoadable-IsTyped x h)).nonempty))
      (Runs-wire ops (length (wire ops x ++ rest))
        (loaded (some (decoded ops x)) (length (wire ops x))) x rest none [] h tt (omega arith)
        (After-item ops (wire ops x) rest (decoded ops x)))

-- Round trip: where the encoding of an item fits into the buffer and no allocation fails, cbor_load
-- returns from what cbor_serialize stored the item as the decoder represents it, and has read as many
-- bytes as cbor_serialize returned. The item's values fit their types, its containers have less than
-- 2 ^ 55 members, its simple values are false, true, null and undefined, and it is nested no deeper
-- than CBOR_MAX_STACK_SIZE.
pub load-serialize :
    (ops : FloatOps) (x : Item) (size : ℕ) (before : LoadResult)
    → IsLoadable x
    → depth x ≤ max_stack_size
    → length (wire ops x) ≤ size
    → load ops always (serialize ops x size).stored before
      ≡ some (loaded (some (decoded ops x)) (serialize ops x size).written)
load-serialize ops x size before h shallow fits =
    let out = ((serialize-Emits ops x (IsLoadable-IsTyped x h)).holds size).fits fits in
    rw out (rw (append-nil (wire ops x)) at (load-wire ops x [] before h shallow))
