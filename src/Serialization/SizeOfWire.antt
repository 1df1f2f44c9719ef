-- ===== src/Serialization/SizeOfWire.antt =====
-- For an item whose values fit their C types, cbor_serialized_size is the length of the reference encoding, and signals an overflow by 0.
use libcbor.Base.{ℕ, ◌+◌, ◌≤◌, ◌<◌, ◌^◌, ◌≡◌, refl, sym, subst, ◌∙◌, arith}
use libcbor.Base.{List, [], ◌∷◌, ◌++◌, length, length-append, All, if◌then◌else◌, ◌==◌}
use libcbor.Base.{Bool, ne→==_false, true, false, none, some}
use libcbor.Encoders.Headers.{header8, header16, header32, header64, header}
use libcbor.Items.{Metadata, IntWidth, StringData, Item, Items, Pairs, count, count_pairs, IsTyped}
use libcbor.Items.{AreTyped, PairsAreTyped, IsByteString}
use libcbor.Loaders.{FloatOps}
use libcbor.Memory.{IsSize, safe_signaling_add, Allocator}
use libcbor.Memory.Bounds.{safe_signaling_add_lem}
use libcbor.Serialization.Refines.{serialize-Emits}
use libcbor.Serialization.Size.{
  encoded_header_size, int_size, counted_size, byte_chunks_size, string_chunks_size, container_size,
  serialized_size, items_size, pairs_size, serialize_alloc,
}
use libcbor.Serialization.Wire.{int_header, counted_bytes, byte_chunks, string_chunks, front, back}
use libcbor.Serialization.Wire.{wire, wire_items, wire_pairs}
use native.Mathlib.Decide.{dec_lt}

-- `r` is the size `n`, or 0 where `n` is no size_t; `n` is not 0.
pub record Measures (r n : ℕ) : Type 0 where
  pub positive : 1 ≤ n
  pub fits : n < 2 ^ 64 → r ≡ n
  pub overflows : 2 ^ 64 ≤ n → r ≡ 0

Measures-IsSize : (r n : ℕ) → Measures r n → IsSize r
Measures-IsSize r n m = elim (dec_lt n (2 ^ 64)) [
  | yes p ↦ omega (arith, m.fits p)
  | no q ↦ omega (arith, m.overflows (omega arith))
]

add-Measures :
    {a b m n : ℕ} → Measures a m → Measures b n → Measures (safe_signaling_add a b) (m + n)
add-Measures {a} {b} {m} {n} p q =
    let (sum, zero_left, zero_right, over) =
      safe_signaling_add_lem a b (Measures-IsSize a m p) (Measures-IsSize b n q) in
    record {
      positive = omega (arith, p.positive);
      fits = λ h.
          sum (omega (arith, p.positive, p.fits)) (omega (arith, q.positive, q.fits))
            (omega (arith, p.fits, q.fits))
          ∙ omega (arith, p.fits, q.fits);
      overflows = λ h. elim (dec_lt m (2 ^ 64)) [
        | no big ↦ zero_left (p.overflows (omega arith))
        | yes small ↦ elim (dec_lt n (2 ^ 64)) [
          | no big ↦ zero_right (q.overflows (omega arith))
          | yes small' ↦ over (omega (arith, p.fits small, q.fits small'))
        ]
      ];
    }

small-Measures : {r n : ℕ} → r ≡ n → 1 ≤ n → n < 2 ^ 64 → Measures r n
small-Measures e h k = record { positive = h; fits = λ _. e; overflows = λ o. absurd (omega arith) }

Measures-if :
    (c : Bool) {a b n : ℕ}
    → (c ≡ true → Measures a n)
    → (c ≡ false → Measures b n)
    → Measures (if c then a else b) n
Measures-if true ha hb = ha refl
Measures-if false ha hb = hb refl

Measures-eq : {r m n : ℕ} → m ≡ n → Measures r m → Measures r n
Measures-eq {r} e h = subst (λ k. Measures r k) e h

encoded_header_size_lem :
    (offset n : ℕ)
    → (encoded_header_size n ≡ length (header offset n))
      × (1 ≤ length (header offset n))
      × (length (header offset n) ≤ 9)
unfolding encoded_header_size header
encoded_header_size_lem offset n = (ground arith, ground arith, ground arith)

header-Measures : (offset n : ℕ) → Measures (encoded_header_size n) (length (header offset n))
header-Measures offset n =
    let (e, low, high) = encoded_header_size_lem offset n in small-Measures e low (omega arith)

counted_size-Measures :
    (offset : ℕ) (bytes : List ℕ)
    → IsByteString bytes
    → Measures (counted_size (length bytes)) (length (counted_bytes offset bytes))
unfolding counted_size counted_bytes
counted_size-Measures offset bytes h =
    let n = length bytes in
    let head = header-Measures offset n in
    rw (length-append (header offset n) bytes) (
      Measures-if (n == 0) (λ e. Measures-eq (ground arith) head)
        (λ e. add-Measures head (record {
          positive = ground arith;
          fits = λ _. refl;
          overflows = λ o. absurd (omega arith);
        })))

int_size-Measures :
    (offset v : ℕ) (w : IntWidth) → Measures (int_size w v) (length (int_header offset w v))
unfolding int_size int_header
int_size-Measures offset v IntWidth.int8 =
    small-Measures (ground arith) (ground arith) (ground arith)
int_size-Measures offset v IntWidth.int16 = small-Measures refl (omega arith) (omega arith)
int_size-Measures offset v IntWidth.int32 = small-Measures refl (omega arith) (omega arith)
int_size-Measures offset v IntWidth.int64 = small-Measures refl (omega arith) (omega arith)

byte_chunks_size-Measures :
    (cs : List (List ℕ)) (so_far n : ℕ)
    → All IsByteString cs
    → Measures so_far n
    → Measures (byte_chunks_size cs so_far) (n + length (byte_chunks cs))
unfolding byte_chunks_size byte_chunks
byte_chunks_size-Measures [] so_far n h m = Measures-eq (omega arith) m
byte_chunks_size-Measures (c ∷ cs) so_far n h m =
    Measures-eq (omega (arith, length-append (counted_bytes 0x40 c) (byte_chunks cs)))
      (byte_chunks_size-Measures cs _ _ h.1 (add-Measures m (counted_size-Measures 0x40 c h.0)))

string_chunks_size-Measures :
    (cs : List StringData) (so_far n : ℕ)
    → All (λ c. IsByteString c.bytes) cs
    → Measures so_far n
    → Measures (string_chunks_size cs so_far) (n + length (string_chunks cs))
unfolding string_chunks_size string_chunks
string_chunks_size-Measures [] so_far n h m = Measures-eq (omega arith) m
string_chunks_size-Measures (c ∷ cs) so_far n h m =
    Measures-eq (omega (arith, length-append (counted_bytes 0x60 c.bytes) (string_chunks cs))) (
      string_chunks_size-Measures cs _ _ h.1
        (add-Measures m (counted_size-Measures 0x60 c.bytes h.0)))

container_size-Measures :
    (d : Metadata) (offset n : ℕ)
    → Measures (container_size d n) (length (front d offset n) + length (back d))
unfolding container_size
container_size-Measures Metadata.definite offset n =
    Measures-eq (omega arith) (header-Measures offset n)
container_size-Measures Metadata.indefinite offset n =
    small-Measures (omega arith) (omega arith) (omega arith)

ctrl-Measures : (v : ℕ) → v < 2 ^ 8 → Measures (encoded_header_size v) (length (header8 0xE0 v))
unfolding encoded_header_size
ctrl-Measures v h =
    small-Measures (unfold header8 in ground arith) (unfold header8 in ground arith)
      (unfold header8 in ground arith)

-- Two lists behind a front, measured with what has been counted so far.
length-three : (a b c : List ℕ) → length a + length c + length b ≡ length (a ++ (b ++ c))
length-three a b c = omega (arith, length-append a (b ++ c), length-append b c)

mutual
  unfolding serialized_size wire header16 header32 header64

  wire-Measures :
      (ops : FloatOps) (x : Item) → IsTyped x → Measures (serialized_size x) (length (wire ops x))
  wire-Measures ops (Item.uint w v) h = int_size-Measures 0x00 v w
  wire-Measures ops (Item.negint w v) h = int_size-Measures 0x20 v w
  wire-Measures ops (Item.bytestring bytes) h = counted_size-Measures 0x40 bytes h
  wire-Measures ops (Item.indef_bytestring capacity chunks) h =
      Measures-eq (omega (arith, length-append (byte_chunks chunks) (0xFF ∷ [])))
        (byte_chunks_size-Measures chunks 2 2 h (small-Measures refl (omega arith) (omega arith)))
  wire-Measures ops (Item.string s) h = counted_size-Measures 0x60 s.bytes h
  wire-Measures ops (Item.indef_string capacity chunks) h =
      Measures-eq (omega (arith, length-append (string_chunks chunks) (0xFF ∷ [])))
        (string_chunks_size-Measures chunks 2 2 h (small-Measures refl (omega arith) (omega arith)))
  wire-Measures ops (Item.array d allocated xs) (small, typed) =
      Measures-eq (length-three (front d 0x80 (count xs)) (wire_items ops xs) (back d))
        (wire_items-Measures ops xs _ _ typed (container_size-Measures d 0x80 (count xs)))
  wire-Measures ops (Item.map d allocated ps) (small, typed) =
      Measures-eq (length-three (front d 0xA0 (count_pairs ps)) (wire_pairs ops ps) (back d))
        (wire_pairs-Measures ops ps _ _ typed (container_size-Measures d 0xA0 (count_pairs ps)))
  wire-Measures ops (Item.tag v x) (small, typed) =
      Measures-eq (sym (length-append (header 0xC0 v) (wire ops x)))
        (add-Measures (header-Measures 0xC0 v) (wire-Measures ops x typed))
  wire-Measures ops (Item.ctrl v) h = ctrl-Measures v h
  wire-Measures ops (Item.float2 v) h = small-Measures refl (omega arith) (omega arith)
  wire-Measures ops (Item.float4 v) h = small-Measures refl (omega arith) (omega arith)
  wire-Measures ops (Item.float8 v) h = small-Measures refl (omega arith) (omega arith)

  wire_items-Measures :
      (ops : FloatOps) (xs : Items) (so_far n : ℕ)
      → AreTyped xs
      → Measures so_far n
      → Measures (items_size xs so_far) (n + length (wire_items ops xs))
  wire_items-Measures ops Items.nil so_far n typed m = Measures-eq (omega arith) m
  wire_items-Measures ops (Items.cons x xs) so_far n typed m =
      Measures-eq (omega (arith, length-append (wire ops x) (wire_items ops xs)))
        (wire_items-Measures ops xs _ _ typed.1 (add-Measures m (wire-Measures ops x typed.0)))

  wire_pairs-Measures :
      (ops : FloatOps) (ps : Pairs) (so_far n : ℕ)
      → PairsAreTyped ps
      → Measures so_far n
      → Measures (pairs_size ps so_far) (n + length (wire_pairs ops ps))
  wire_pairs-Measures ops Pairs.end so_far n typed m = Measures-eq (omega arith) m
  wire_pairs-Measures ops (Pairs.pair k v ps) so_far n typed m =
      Measures-eq
        (omega (
          arith,
          length-append (wire ops k) (wire ops v ++ wire_pairs ops ps),
          length-append (wire ops v) (wire_pairs ops ps),
        ))
        (wire_pairs-Measures ops ps _ _ typed.2 (
          add-Measures m
            (add-Measures (wire-Measures ops k typed.0) (wire-Measures ops v typed.1))))

-- cbor_serialized_size is the length of the item's encoding, `wire`, if that is a size_t, and 0
-- otherwise; the length is never 0.
pub serialized_size-Measures :
    (ops : FloatOps) (x : Item) → IsTyped x → Measures (serialized_size x) (length (wire ops x))
serialized_size-Measures ops x h = wire-Measures ops x h

-- For an item whose values fit their C types: where the encoding's length is a size_t and malloc
-- succeeds for that many bytes, cbor_serialize_alloc returns that length and a buffer of just that size holding the encoding. Where
-- malloc fails, or the length is no size_t, it returns 0 and no buffer.
pub serialize_alloc_lem :
    (ops : FloatOps) (answers : Allocator) (x : Item)
    → IsTyped x
    → let n = length (wire ops x) in
      (n < 2 ^ 64
        → answers 0 n ≡ true
        → serialize_alloc ops answers x
          ≡ record { written = n; buffer = some (wire ops x); buffer_size = n })
      × (n < 2 ^ 64
          → answers 0 n ≡ false
          → serialize_alloc ops answers x ≡ record { written = 0; buffer = none; buffer_size = 0 })
      × (2 ^ 64 ≤ n
          → serialize_alloc ops answers x ≡ record { written = 0; buffer = none; buffer_size = 0 })
unfolding serialize_alloc
serialize_alloc_lem ops answers x h =
    let m = wire-Measures ops x h in
    let whole = λ (k : length (wire ops x) < 2 ^ 64).
      ((serialize-Emits ops x h).holds (length (wire ops x))).fits (omega arith) in
    let nonzero = ne→==_false (length (wire ops x)) 0 (λ e. omega (arith, m.positive)) in
    (
      λ k ok. rw (m.fits k, nonzero, ok, whole k),
      λ k bad. rw (m.fits k, nonzero, bad),
      λ k. rw (m.overflows k),
    )
