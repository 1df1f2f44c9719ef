-- ===== src/Builder/Room.antt =====
-- No member is written behind the storage of its container: what is on the builder's stack has room for
-- its members, and so has the root.
use libcbor.Base.{
  ℕ, suc, ◌%◌, ◌≡◌, refl, List, [], ◌∷◌, Option, none, some, Bool, true, false, All, length,
  if◌then◌else◌, ◌==◌,
}
use libcbor.Builder.{
  open_array, open_map, open_tag, open_bytestring, open_string, Frame, frame, Context, append_to,
  decrement, flip, faulty, settle_map,
}
use libcbor.Containers.{array_push, map_add_key}
use libcbor.Containers.Room.{
  HasRoom, IsRoomy, AreRoomy, PairsAreRoomy, IfAny, snoc_pair-PairsAreRoomy, array_push-HasRoom,
  map_add_key-HasRoom,
}
use libcbor.Items.{Metadata, Item, Pairs, count, count_pairs, snoc_pair}
use libcbor.Load.Decoded.{count_pairs-snoc_pair}

-- A key that waits for its value has its place in the storage of its map.
abbrev pub FrameFits : Frame → Type 0
FrameFits (frame (open_array d allocated xs) n) = HasRoom 8 allocated (count xs) × AreRoomy xs
FrameFits (frame (open_map d allocated ps none) n) =
    HasRoom 16 allocated (count_pairs ps) × PairsAreRoomy ps
FrameFits (frame (open_map d allocated ps (some key)) n) =
    HasRoom 16 allocated (suc (count_pairs ps)) × PairsAreRoomy ps × IsRoomy key
FrameFits (frame (open_tag value) n) = Unit {0}
FrameFits (frame (open_bytestring capacity chunks) n) = HasRoom 8 capacity (length chunks)
FrameFits (frame (open_string capacity chunks) n) = HasRoom 8 capacity (length chunks)

abbrev pub RootFits : Option Item → Type 0
RootFits none = Unit {0}
RootFits (some item) = IsRoomy item

abbrev pub IsFitted : Context → Type 0
IsFitted ctx = RootFits ctx.root × All FrameFits ctx.stack

pub if-IsFitted :
    (c : Bool) (x y : Context)
    → (c ≡ true → IsFitted x)
    → (c ≡ false → IsFitted y)
    → IsFitted (if c then x else y)
if-IsFitted true x y h k = h refl
if-IsFitted false x y h k = k refl

pub room-IsFitted :
    {A : Type 0} {P : A → Type 0} (room : Option A) (x : Context) (y : A → Context)
    → IfAny P room
    → IsFitted x
    → ((a : A) → P a → IsFitted (y a))
    → IsFitted (elim room [ none ↦ x | some a ↦ y a ])
room-IsFitted _ x y IfAny.nothing h k = h
room-IsFitted _ x y (IfAny.just a p) h k = k a p

settle_map-IsFitted :
    (d : Metadata) (allocated : ℕ) (ps : Pairs) (pending : Option Item) (n : ℕ) (lower : List Frame)
    (ctx : Context) (closed : Context → Context)
    → ((m : ℕ) → FrameFits (frame (open_map d allocated ps pending) m))
    → All FrameFits lower
    → IsFitted ctx
    → IsFitted (closed (record ctx { stack = lower }))
    → IsFitted (settle_map d allocated ps pending n lower ctx closed)
settle_map-IsFitted Metadata.definite allocated ps pending n lower ctx closed this below h k =
    if-IsFitted (n == 0) _ _ (λ e. h)
      (λ e. if-IsFitted (decrement n == 0) _ _ (λ z. k) (λ z. (h.0, (this (decrement n), below))))
settle_map-IsFitted Metadata.indefinite allocated ps pending n lower ctx closed this below h k =
    (h.0, (this (flip n), below))

pub append_to-IsFitted :
    (s : List Frame) (item : Item) (ctx : Context)
    → All FrameFits s
    → IsRoomy item
    → IsFitted ctx
    → IsFitted (append_to s item ctx)
unfolding append_to
append_to-IsFitted [] item ctx h fits k = (fits, tt)
append_to-IsFitted (frame (open_array Metadata.definite allocated xs) n ∷ lower) item ctx h fits k =
    if-IsFitted (n == 0) _ _ (λ e. k)
      (λ e.
        room-IsFitted (array_push Metadata.definite allocated xs item ctx.answers).0 _ _
          (array_push-HasRoom Metadata.definite allocated xs item ctx.answers h.0.0 h.0.1 fits)
          (k.0, h)
          (λ grown room.
            if-IsFitted (decrement n == 0) _ _
              (λ z. append_to-IsFitted lower _ _ h.1 room (k.0, h.1)) (λ z. (k.0, (room, h.1)))))
append_to-IsFitted (frame (open_array Metadata.indefinite allocated xs) n ∷ lower) item ctx h fits
      k =
    room-IsFitted (array_push Metadata.indefinite allocated xs item ctx.answers).0 _ _
      (array_push-HasRoom Metadata.indefinite allocated xs item ctx.answers h.0.0 h.0.1 fits)
      (k.0, h) (λ grown room. (k.0, (room, h.1)))
append_to-IsFitted (frame (open_map d allocated ps (some key)) n ∷ lower) item ctx h fits k =
    let entries = snoc_pair-PairsAreRoomy ps key item h.0.1 h.0.2 fits in
    let room : HasRoom 16 allocated (count_pairs (snoc_pair ps key item)) =
      rw (count_pairs-snoc_pair ps key item) h.0.0 in
    if-IsFitted (n % 2 == 0) _ _ (λ e. k)
      (λ e.
        settle_map-IsFitted d allocated (snoc_pair ps key item) none n lower
          (record ctx { creation_failed = false })
          (append_to lower (Item.map d allocated (snoc_pair ps key item))) (λ m. (room, entries))
          h.1 k
          (append_to-IsFitted lower (Item.map d allocated (snoc_pair ps key item))
            (record ctx { creation_failed = false; stack = lower }) h.1 (room, entries) (k.0, h.1)))
append_to-IsFitted (frame (open_map d allocated ps none) n ∷ lower) item ctx h fits k =
    if-IsFitted (n % 2 == 0) _ _
      (λ e.
        room-IsFitted (map_add_key d allocated ps ctx.answers).0 _ _
          (map_add_key-HasRoom d allocated ps ctx.answers h.0.0) (k.0, h)
          (λ allocated' room.
            settle_map-IsFitted d allocated' ps (some item) n lower _ faulty
              (λ m. (room, h.0.1, fits)) h.1 k (k.0, h.1)))
      (λ e. k)
append_to-IsFitted (frame (open_tag value) n ∷ lower) item ctx h fits k =
    if-IsFitted (n == 1) _ _
      (λ e. append_to-IsFitted lower (Item.tag value item) _ h.1 fits (k.0, h.1)) (λ e. k)
append_to-IsFitted (frame (open_bytestring capacity chunks) n ∷ lower) item ctx h fits k = (k.0, h)
append_to-IsFitted (frame (open_string capacity chunks) n ∷ lower) item ctx h fits k = (k.0, h)
