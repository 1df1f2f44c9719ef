-- ===== src/Load/Truncated.antt =====
-- src/cbor.c and src/cbor/serialization.c together: an encoding that is cut short.
use libcbor.Base.{ℕ, ◌+◌, ◌≤◌, ◌≡◌, ◌≢◌, refl, sym, ap, ◌∙◌, arith}
use libcbor.Base.{List, [], ◌∷◌, ◌++◌, append-nil, Option, some, none, All, length, length-append}
use libcbor.Builder.{max_stack_size}
use libcbor.Builder.Plenty.{always}
use libcbor.Items.{Item}
use libcbor.Load.{ErrorCode, LoadResult, Loaded, failed, loaded, load}
use libcbor.Load.Bounds.{IsResult, load-IsResult}
use libcbor.Load.Decoded.{decoded, depth, IsLoadable}
use libcbor.Load.Prefix.{load-append, load-append_settled}
use libcbor.Load.RoundTrip.{load-wire}
use libcbor.Loaders.{FloatOps}
use libcbor.Serialization.Wire.{wire}
use libcbor.Streaming.Contract.{IsByte}

-- `NOTENOUGHDATA`, and no item.
abbrev pub LacksData : Option Loaded → Type 0
LacksData r = (read : ℕ) × (r ≡ some (failed ErrorCode.notenoughdata read))

abbrev read_of : Option Loaded → ℕ
read_of none = 0
read_of (some r) = r.result.read

abbrev item_of : Option Loaded → Option Item
item_of none = none
item_of (some r) = r.item

module _ (ops : FloatOps) (x : Item) (before : LoadResult) (b : ℕ) (front back : List ℕ)
    (loadable : IsLoadable x) (shallow : depth x ≤ max_stack_size)
    (cut : wire ops x ≡ (b ∷ front) ++ back) (bytes : All IsByte (b ∷ front)) where
  whole :
      load ops always ((b ∷ front) ++ back) before
      ≡ some (loaded (some (decoded ops x)) (length (b ∷ front) + length back))
  whole =
      rw (append-nil (wire ops x), cut, length-append (b ∷ front) back) at
        (load-wire ops x [] before loadable shallow)

  no_error :
      (code : ErrorCode) (read : ℕ)
      → code ≢ ErrorCode.notenoughdata
      → load ops always (b ∷ front) before ≢ some (failed code read)
  no_error code read other e = cc (
      ap item_of (
        sym whole
        ∙ load-append_settled ops always b front back before (failed code read) bytes other e))

  by_result :
      (res : Option Loaded)
      → load ops always (b ∷ front) before ≡ res
      → IsResult (length (b ∷ front)) res
      → 1 ≤ length back
      → LacksData res
  by_result _ e (IsResult.success item read pos small) missing = absurd (
      omega (
        arith,
        ap read_of
            (sym whole ∙ load-append ops always (b ∷ front) back before (some item) read bytes e),
      ))
  by_result _ e (IsResult.failure ErrorCode.notenoughdata read real small) missing = (read, refl)
  by_result _ e (IsResult.failure ErrorCode.none read real small) missing = absurd (real refl)
  by_result _ e (IsResult.failure ErrorCode.nodata read real small) missing =
      absurd (no_error ErrorCode.nodata read (λ c. cc) e)
  by_result _ e (IsResult.failure ErrorCode.malformated read real small) missing =
      absurd (no_error ErrorCode.malformated read (λ c. cc) e)
  by_result _ e (IsResult.failure ErrorCode.memerror read real small) missing =
      absurd (no_error ErrorCode.memerror read (λ c. cc) e)
  by_result _ e (IsResult.failure ErrorCode.syntaxerror read real small) missing =
      absurd (no_error ErrorCode.syntaxerror read (λ c. cc) e)

  -- A proper prefix of an item's encoding that is not empty is refused for lack of data, where no
  -- allocation fails. The prefix is of bytes; the item is as the round trip wants it: its values fit
  -- their types, its containers have less than 2 ^ 55 members, its simple values are false, true, null
  -- and undefined, and it is nested no deeper than CBOR_MAX_STACK_SIZE.
  pub load-truncated : 1 ≤ length back → LacksData (load ops always (b ∷ front) before)
  load-truncated missing = by_result _ refl (load-IsResult ops always b front before bytes) missing
