-- ===== src/Load/Runs.antt =====
-- cbor_load's loop on the encoding of any item, by induction on the item.
use libcbor.Base.{ℕ, suc, ◌+◌, ◌*◌, ◌^◌, ◌≤◌, ◌<◌, ◌≡◌, arith}
use libcbor.Base.{List, [], ◌∷◌, ◌++◌, append-nil, append_assoc, Option, none}
use libcbor.Base.{length}
use libcbor.Builder.{Frame, frame, append_to, max_stack_size}
use libcbor.Builder.{open_array, open_map, open_tag}
use libcbor.Builder.Plenty.{clean, grown}
use libcbor.Encoders.Headers.{header}
use libcbor.Items.{Item, Items, Pairs, Metadata, count, count_pairs, snoc, snoc_pair}
use libcbor.Load.{Loaded}
use libcbor.Load.Decoded.{
  decoded, decoded_items, decoded_pairs, depth, items_depth, pairs_depth, IsLoadable, AreLoadable,
  PairsAreLoadable, push_items, push_pairs, push_items-snoc, push_pairs-snoc, push_items-nil,
  push_pairs-end, count-snoc, count_pairs-snoc_pair, if_lt,
}
use libcbor.Load.Leaves.{
  Reads-uint, Reads-negint, Reads-float2, Reads-float4, Reads-float8, Reads-ctrl, Reads-bytestring,
  Reads-string,
}
use libcbor.Load.Members.{
  member-next, member-last, member-grown, key-room, value-next, value-last, key-grown, value-grown,
  tagged,
}
use libcbor.Load.Starts.{
  start_array, start_map, no_members, no_entries, start_tag, start_indef_array, start_indef_map,
  end_array, end_map,
}
use libcbor.Load.ByteRuns.{Runs-indef_bytestring}
use libcbor.Load.StringRuns.{Runs-indef_string}
use libcbor.Load.Steps.{Runs, After, IsFree}
use libcbor.Loaders.{FloatOps}
use libcbor.Serialization.Wire.{wire, wire_items, wire_pairs, single_bits, double_bits}

mutual
  unfolding wire

  pub Runs-wire :
      (ops : FloatOps) (total : ℕ) (result : Loaded) (x : Item) (rest : List ℕ) (r : Option Item)
      (s : List Frame)
      → IsLoadable x
      → IsFree s
      → length s + depth x ≤ max_stack_size
      → After ops total result rest (append_to s (decoded ops x) (clean r s))
      → Runs ops total result (wire ops x ++ rest) (clean r s)
  Runs-wire ops total result (Item.uint w v) rest r s h free room k =
      Reads-uint ops total result rest r s w v h k
  Runs-wire ops total result (Item.negint w v) rest r s h free room k =
      Reads-negint ops total result rest r s w v h k
  Runs-wire ops total result (Item.bytestring bytes) rest r s h free room k =
      Reads-bytestring ops total result rest r s bytes h free k
  Runs-wire ops total result (Item.string text) rest r s h free room k =
      Reads-string ops total result rest r s text.bytes h free k
  Runs-wire ops total result (Item.indef_bytestring capacity cs) rest r s h free room k =
      Runs-indef_bytestring ops total result rest r s capacity cs h.1 h.0 (omega arith) k
  Runs-wire ops total result (Item.indef_string capacity cs) rest r s h free room k =
      Runs-indef_string ops total result rest r s capacity cs h.1 h.0 (omega arith) k
  Runs-wire ops total result (Item.array Metadata.definite allocated Items.nil) rest r s h free room
        k =
      rw (append-nil (header 0x80 0)) (no_members ops total result rest r s k)
  Runs-wire ops total result (Item.array Metadata.definite allocated (Items.cons x xs)) rest r s h
        free room k =
      let n = suc (count xs) in
      let members = wire_items ops (Items.cons x xs) in
      rw (append-nil members, append_assoc (header 0x80 n) members rest)
        (start_array ops total result n (members ++ rest) r s h.0 (omega arith) (omega arith) (
          Runs-members ops total result (Items.cons x xs) Items.nil n rest r s h.1 (omega arith)
            (omega arith) h.0 (omega arith) k))
  Runs-wire ops total result (Item.array Metadata.indefinite allocated xs) rest r s h free room k =
      let members = wire_items ops xs in
      rw (append_assoc members (0xFF ∷ []) rest) (
        start_indef_array ops total result (members ++ (0xFF ∷ rest)) r s (omega arith) (
          Runs-open_members ops total result xs Items.nil rest r s h.1 (omega arith) (omega arith)
            (let e : 0 + count xs ≡ count xs = omega arith in rw e k)))
  Runs-wire ops total result (Item.map Metadata.definite allocated Pairs.end) rest r s h free room
        k =
      rw (append-nil (header 0xA0 0)) (no_entries ops total result rest r s k)
  Runs-wire ops total result (Item.map Metadata.definite allocated (Pairs.pair key v ps)) rest r s h
        free room k =
      let n = suc (count_pairs ps) in
      let members = wire_pairs ops (Pairs.pair key v ps) in
      rw (append-nil members, append_assoc (header 0xA0 n) members rest)
        (start_map ops total result n (members ++ rest) r s h.0 (omega arith) (omega arith) (
          Runs-entries ops total result (Pairs.pair key v ps) Pairs.end n rest r s h.1 (omega arith)
            (omega arith) h.0 (omega arith) k))
  Runs-wire ops total result (Item.map Metadata.indefinite allocated ps) rest r s h free room k =
      let members = wire_pairs ops ps in
      rw (append_assoc members (0xFF ∷ []) rest) (
        start_indef_map ops total result (members ++ (0xFF ∷ rest)) r s (omega arith) (
          Runs-open_entries ops total result ps Pairs.end rest r s h.1 (omega arith) (omega arith)
            (let e : 0 + count_pairs ps ≡ count_pairs ps = omega arith in rw e k)))
  Runs-wire ops total result (Item.tag v x) rest r s h free room k =
      rw (append_assoc (header 0xC0 v) (wire ops x) rest) (
        start_tag ops total result v (wire ops x ++ rest) r s h.0 (omega arith) (
          Runs-wire ops total result x rest r (frame (open_tag v) 1 ∷ s) h.1 tt (omega arith)
            (rw (tagged r s v (decoded ops x)) k)))
  Runs-wire ops total result (Item.ctrl v) rest r s h free room k =
      Reads-ctrl ops total result rest r s v h.0 h.1 k
  Runs-wire ops total result (Item.float2 v) rest r s h free room k =
      Reads-float2 ops total result rest r s v k
  Runs-wire ops total result (Item.float4 v) rest r s h free room k =
      Reads-float4 ops total result rest r s (single_bits ops v)
        (if_lt (2 ^ 32) (ops.isnan_float v) 0x7FC0_0000 v (omega arith) h) k
  Runs-wire ops total result (Item.float8 v) rest r s h free room k =
      Reads-float8 ops total result rest r s (double_bits ops v)
        (if_lt (2 ^ 64) (ops.isnan_double v) 0x7FF8_0000_0000_0000 v (omega arith) h) k

  Runs-members :
      (ops : FloatOps) (total : ℕ) (result : Loaded) (xs taken : Items) (n : ℕ) (rest : List ℕ)
      (r : Option Item) (s : List Frame)
      → AreLoadable xs
      → 1 ≤ count xs
      → count taken + count xs ≡ n
      → n < 2 ^ 55
      → length s + suc (items_depth xs) ≤ max_stack_size
      → After ops total result rest (
          append_to s
            (Item.array Metadata.definite n (push_items taken (decoded_items ops xs)))
            (clean r s))
      → Runs ops total result
          (wire_items ops xs ++ rest)
          (clean r (frame (open_array Metadata.definite n taken) (count xs) ∷ s))
  Runs-members ops total result Items.nil taken n rest r s h pos all small room k =
      absurd (omega arith)
  Runs-members ops total result (Items.cons x Items.nil) taken n rest r s h pos all small room k =
      rw (append-nil (wire ops x)) (
        Runs-wire ops total result x rest r _ h.0 tt (omega arith) (
          rw
            (
              member-last r s n taken (decoded ops x) (omega arith),
              ← push_items-nil (snoc taken (decoded ops x)),
              push_items-snoc taken (decoded ops x) Items.nil,
            )
            k))
  Runs-members ops total result (Items.cons x (Items.cons y ys)) taken n rest r s h pos all small
        room k =
      let next = snoc taken (decoded ops x) in
      let more = wire_items ops (Items.cons y ys) in
      rw (append_assoc (wire ops x) more rest) (
        Runs-wire ops total result x (more ++ rest) r _ h.0 tt (omega arith) (
          rw
            (member-next r s n taken (decoded ops x) (suc (count ys)) (omega arith) (omega arith)
              (omega arith))
            (Runs-members ops total result (Items.cons y ys) next n rest r s h.1 (omega arith)
              (omega (arith, count-snoc taken (decoded ops x))) small (omega arith)
              (rw (push_items-snoc taken (decoded ops x) (decoded_items ops (Items.cons y ys)))
                k))))

  Runs-open_members :
      (ops : FloatOps) (total : ℕ) (result : Loaded) (xs taken : Items) (rest : List ℕ)
      (r : Option Item) (s : List Frame)
      → AreLoadable xs
      → count taken + count xs < 2 ^ 55
      → length s + suc (items_depth xs) ≤ max_stack_size
      → After ops total result rest (
          append_to s
            (Item.array Metadata.indefinite
              (grown (count taken + count xs))
              (push_items taken (decoded_items ops xs)))
            (clean r s))
      → Runs ops total result
          (wire_items ops xs ++ (0xFF ∷ rest))
          (clean r (frame (open_array Metadata.indefinite (grown (count taken)) taken) 0 ∷ s))
  Runs-open_members ops total result Items.nil taken rest r s h small room k =
      let e : count taken + 0 ≡ count taken = omega arith in
      end_array ops total result (grown (count taken)) taken rest r s
        (rw (e, push_items-nil taken) at k)
  Runs-open_members ops total result (Items.cons x xs) taken rest r s h small room k =
      let next = snoc taken (decoded ops x) in
      let n = count-snoc taken (decoded ops x) in
      let e : suc (count taken) + count xs ≡ count taken + suc (count xs) = omega arith in
      rw (append_assoc (wire ops x) (wire_items ops xs) (0xFF ∷ rest)) (
        Runs-wire ops total result x (wire_items ops xs ++ (0xFF ∷ rest)) r _ h.0 tt (omega arith) (
          rw (member-grown r s taken (decoded ops x) (omega arith), ← n)
            (Runs-open_members ops total result xs next rest r s h.1 (omega (arith, n))
              (omega arith)
              (rw (n, e, push_items-snoc taken (decoded ops x) (decoded_items ops xs)) k))))

  Runs-entries :
      (ops : FloatOps) (total : ℕ) (result : Loaded) (ps taken : Pairs) (n : ℕ) (rest : List ℕ)
      (r : Option Item) (s : List Frame)
      → PairsAreLoadable ps
      → 1 ≤ count_pairs ps
      → count_pairs taken + count_pairs ps ≡ n
      → n < 2 ^ 55
      → length s + suc (pairs_depth ps) ≤ max_stack_size
      → After ops total result rest (
          append_to s
            (Item.map Metadata.definite n (push_pairs taken (decoded_pairs ops ps)))
            (clean r s))
      → Runs ops total result
          (wire_pairs ops ps ++ rest)
          (clean r (frame (open_map Metadata.definite n taken none) (2 * count_pairs ps) ∷ s))
  Runs-entries ops total result Pairs.end taken n rest r s h pos all small room k =
      absurd (omega arith)
  Runs-entries ops total result (Pairs.pair key v Pairs.end) taken n rest r s h pos all small room
        k =
      rw (append-nil (wire ops v), append_assoc (wire ops key) (wire ops v) rest)
        (Runs-wire ops total result key (wire ops v ++ rest) r _ h.0 tt (omega arith) (
          rw (key-room r s n taken (decoded ops key) 0 (omega arith) (omega arith)) (
            Runs-wire ops total result v rest r _ h.1 tt (omega arith) (
              rw
                (
                  value-last r s n taken (decoded ops key) (decoded ops v),
                  ← push_pairs-end (snoc_pair taken (decoded ops key) (decoded ops v)),
                  push_pairs-snoc taken (decoded ops key) (decoded ops v) Pairs.end,
                )
                k))))
  Runs-entries ops total result (Pairs.pair key v (Pairs.pair a b ps)) taken n rest r s h pos all
        small room k =
      let next = snoc_pair taken (decoded ops key) (decoded ops v) in
      let more = wire_pairs ops (Pairs.pair a b ps) in
      rw
        (append_assoc (wire ops key) (wire ops v ++ more) rest, append_assoc (wire ops v) more rest)
        (Runs-wire ops total result key (wire ops v ++ (more ++ rest)) r _ h.0 tt (omega arith) (
          rw
            (key-room r s n taken (decoded ops key) (suc (count_pairs ps)) (omega arith)
              (omega arith))
            (Runs-wire ops total result v (more ++ rest) r _ h.1 tt (omega arith) (
              rw
                (value-next r s n taken (decoded ops key) (decoded ops v) (suc (count_pairs ps))
                  (omega arith) (omega arith))
                (Runs-entries ops total result (Pairs.pair a b ps) next n rest r s h.2 (omega arith)
                  (omega (arith, count_pairs-snoc_pair taken (decoded ops key) (decoded ops v)))
                  small (omega arith)
                  (rw
                    (push_pairs-snoc taken (decoded ops key) (decoded ops v)
                      (decoded_pairs ops (Pairs.pair a b ps)))
                    k))))))

  Runs-open_entries :
      (ops : FloatOps) (total : ℕ) (result : Loaded) (ps taken : Pairs) (rest : List ℕ)
      (r : Option Item) (s : List Frame)
      → PairsAreLoadable ps
      → count_pairs taken + count_pairs ps < 2 ^ 55
      → length s + suc (pairs_depth ps) ≤ max_stack_size
      → After ops total result rest (
          append_to s
            (Item.map Metadata.indefinite
              (grown (count_pairs taken + count_pairs ps))
              (push_pairs taken (decoded_pairs ops ps)))
            (clean r s))
      → Runs ops total result (wire_pairs ops ps ++ (0xFF ∷ rest)) (
          clean r
            (frame (open_map Metadata.indefinite (grown (count_pairs taken)) taken none) 0 ∷ s))
  Runs-open_entries ops total result Pairs.end taken rest r s h small room k =
      let e : count_pairs taken + 0 ≡ count_pairs taken = omega arith in
      end_map ops total result (grown (count_pairs taken)) taken rest r s
        (rw (e, push_pairs-end taken) at k)
  Runs-open_entries ops total result (Pairs.pair key v ps) taken rest r s h small room k =
      let next = snoc_pair taken (decoded ops key) (decoded ops v) in
      let n = count_pairs-snoc_pair taken (decoded ops key) (decoded ops v) in
      let e : suc (count_pairs taken) + count_pairs ps ≡ count_pairs taken + suc (count_pairs ps) =
        omega arith in
      let more = wire_pairs ops ps in
      let end = 0xFF ∷ rest in
      rw (append_assoc (wire ops key) (wire ops v ++ more) end, append_assoc (wire ops v) more end)
        (Runs-wire ops total result key (wire ops v ++ (more ++ end)) r _ h.0 tt (omega arith) (
          rw (key-grown r s taken (decoded ops key) (omega arith)) (
            Runs-wire ops total result v (more ++ end) r _ h.1 tt (omega arith) (
              rw
                (
                  value-grown r s (grown (suc (count_pairs taken))) taken (decoded ops key)
                      (decoded ops v),
                  ← n,
                )
                (Runs-open_entries ops total result ps next rest r s h.2 (omega (arith, n))
                  (omega arith)
                  (rw
                    (
                      n,
                      e,
                      push_pairs-snoc taken (decoded ops key) (decoded ops v)
                          (decoded_pairs ops ps),
                    )
                    k))))))
