-- ===== src/Builder/Counters.antt =====
-- The counters on the builder's stack, and how `_cbor_builder_append` keeps them in agreement with what
-- the containers hold.
use libcbor.Base.{◌+◌, ◌*◌, ◌%◌, ◌^◌, ◌≤◌, ◌<◌, ◌≡◌, refl, arith}
use libcbor.Base.{List, [], ◌∷◌, Option, none, some, Bool, true, false, All}
use libcbor.Base.{if◌then◌else◌, ◌==◌}
use libcbor.Builder.{
  open_array, open_map, open_tag, open_bytestring, open_string, Frame, frame, Context, append_to,
  decrement,
}
use libcbor.Containers.{array_push, map_add_key}
use libcbor.Containers.Room.{IfAny, array_push-definite, map_add_key-definite}
use libcbor.Items.{Metadata, Item, count, count_pairs}
use libcbor.Load.Decoded.{count_pairs-snoc_pair}
use libcbor.Memory.{IsSize}
use libcbor.Streaming.{Event}

-- What `subitems` is, by the container: the members of a definite array that are not there yet, those
-- and the ones it holds being as many as it has room for; the keys and values of a definite map that
-- are not there yet, likewise, a key that waits for its value being there; 1 in an indefinite map
-- where a key waits, 0 where none does; 1 for a tag. A definite container on the stack has a member to
-- come.
abbrev pub FrameAgrees : Frame → Type 0
FrameAgrees (frame (open_array Metadata.definite allocated xs) n) =
    (count xs + n ≡ allocated) × (1 ≤ n) × (n < 2 ^ 64)
FrameAgrees (frame (open_array Metadata.indefinite allocated xs) n) = Unit {0}
FrameAgrees (frame (open_map Metadata.definite allocated ps none) n) =
    (2 * count_pairs ps + n ≡ 2 * allocated) × (1 ≤ n) × (n < 2 ^ 64)
FrameAgrees (frame (open_map Metadata.definite allocated ps (some key)) n) =
    (2 * count_pairs ps + 1 + n ≡ 2 * allocated) × (1 ≤ n) × (n < 2 ^ 64)
FrameAgrees (frame (open_map Metadata.indefinite allocated ps none) n) = n ≡ 0
FrameAgrees (frame (open_map Metadata.indefinite allocated ps (some key)) n) = n ≡ 1
FrameAgrees (frame (open_tag value) n) = n ≡ 1
FrameAgrees (frame (open_bytestring capacity chunks) n) = Unit {0}
FrameAgrees (frame (open_string capacity chunks) n) = Unit {0}

-- No assertion has failed, and all counters agree.
abbrev pub IsSound : Context → Type 0
IsSound ctx = (ctx.fault ≡ false) × All FrameAgrees ctx.stack

-- The sizes that an event carries are size_t.
abbrev pub EventFits : Event → Type 0
EventFits (Event.array_start size) = IsSize size
EventFits (Event.map_start size) = IsSize size
EventFits event = Unit {0}

pub if-IsSound :
    (c : Bool) (x y : Context)
    → (c ≡ true → IsSound x)
    → (c ≡ false → IsSound y)
    → IsSound (if c then x else y)
if-IsSound true x y h k = h refl
if-IsSound false x y h k = k refl

pub room-IsSound :
    {A : Type 0} (room : Option A) (x : Context) (y : A → Context)
    → IsSound x
    → ((a : A) → IsSound (y a))
    → IsSound (elim room [ none ↦ x | some a ↦ y a ])
room-IsSound none x y h k = h
room-IsSound (some a) x y h k = k a

pushed-IsSound :
    {A : Type 0} {P : A → Type 0} (pushed : Option A) (x : Context) (y : A → Context)
    → IfAny P pushed
    → IsSound x
    → ((a : A) → P a → IsSound (y a))
    → IsSound (elim pushed [ none ↦ x | some a ↦ y a ])
pushed-IsSound _ x y IfAny.nothing h k = h
pushed-IsSound _ x y (IfAny.just a p) h k = k a p

pub append_to-IsSound :
    (s : List Frame) (item : Item) (ctx : Context)
    → All FrameAgrees s
    → ctx.fault ≡ false
    → IsSound (append_to s item ctx)
unfolding append_to
append_to-IsSound [] item ctx h k = (k, tt)
append_to-IsSound (frame (open_array Metadata.definite allocated xs) n ∷ lower) item ctx h k =
    if-IsSound (n == 0) _ _ (λ e. absurd (ground arith))
      (λ e.
        pushed-IsSound (array_push Metadata.definite allocated xs item ctx.answers).0 _ _
          (array_push-definite allocated xs item ctx.answers) (k, h)
          (λ grown same.
            if-IsSound (decrement n == 0) _ _ (λ e'. append_to-IsSound lower _ _ h.1 k)
              (λ e'. (k, ((omega arith, ground arith, omega arith), h.1)))))
append_to-IsSound (frame (open_array Metadata.indefinite allocated xs) n ∷ lower) item ctx h k =
    room-IsSound (array_push Metadata.indefinite allocated xs item ctx.answers).0 _ _ (k, h)
      (λ grown. (k, h))
append_to-IsSound (frame (open_map Metadata.definite allocated ps (some key)) n ∷ lower) item ctx h
      k =
    if-IsSound (n % 2 == 0) _ _ (λ e. absurd (ground arith))
      (λ e.
        if-IsSound (n == 0) _ _ (λ z. absurd (ground arith))
          (λ z.
            if-IsSound (decrement n == 0) _ _ (λ e'. append_to-IsSound lower _ _ h.1 k)
              (λ e'.
                let entries = count_pairs-snoc_pair ps key item in
                (k, ((omega arith, ground arith, omega arith), h.1)))))
append_to-IsSound (frame (open_map Metadata.indefinite allocated ps (some key)) n ∷ lower) item ctx
      h k =
    if-IsSound (n % 2 == 0) _ _ (λ e. absurd (ground arith)) (λ e. (k, (ground arith, h.1)))
append_to-IsSound (frame (open_map Metadata.definite allocated ps none) n ∷ lower) item ctx h k =
    if-IsSound (n % 2 == 0) _ _
      (λ e.
        pushed-IsSound (map_add_key Metadata.definite allocated ps ctx.answers).0 _ _
          (map_add_key-definite allocated ps ctx.answers) (k, h)
          (λ grown same.
            if-IsSound (n == 0) _ _ (λ z. absurd (ground arith))
              (λ z.
                if-IsSound (decrement n == 0) _ _ (λ e'. absurd (ground arith))
                  (λ e'. (k, ((omega arith, ground arith, omega arith), h.1))))))
      (λ e. absurd (ground arith))
append_to-IsSound (frame (open_map Metadata.indefinite allocated ps none) n ∷ lower) item ctx h k =
    if-IsSound (n % 2 == 0) _ _
      (λ e.
        room-IsSound (map_add_key Metadata.indefinite allocated ps ctx.answers).0 _ _ (k, h)
          (λ grown. (k, (ground arith, h.1))))
      (λ e. absurd (ground arith))
append_to-IsSound (frame (open_tag value) n ∷ lower) item ctx h k =
    if-IsSound (n == 1) _ _ (λ e. append_to-IsSound lower (Item.tag value item) _ h.1 k)
      (λ e. absurd (ground arith))
append_to-IsSound (frame (open_bytestring capacity chunks) n ∷ lower) item ctx h k = (k, h)
append_to-IsSound (frame (open_string capacity chunks) n ∷ lower) item ctx h k = (k, h)
