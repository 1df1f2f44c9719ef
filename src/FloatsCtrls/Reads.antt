-- ===== src/FloatsCtrls/Reads.antt =====
-- What the predicates of src/cbor/common.c and the getters of src/cbor/floats_ctrls.c say of the items
-- that the constructors of the latter build.
use libcbor.Allocation.{checked, ◌>>=◌}
use libcbor.Allocation.Ensures.{Ensures, Ensures-bind, Ensures-map}
use libcbor.Base.{ℕ, ◌≡◌, refl, Option, some, Bool, true, false}
use libcbor.Builder.{item_size}
use libcbor.Copy.Leaves.{
  Gives, Gives-one, Gives-pure, build_float2-Gives, build_float4-Gives, build_float8-Gives,
}
use libcbor.FloatsCtrls.{
  get_bool, get_float, get_float2, get_float4, get_float8, set_ctrl, bool_ctrl, new_ctrl,
  build_ctrl, new_null, new_undef, build_bool, build_float2, build_float4, build_float8,
}
use libcbor.Items.{Item}
use libcbor.Kinds.{FloatWidth, float_get_width, is_bool, is_null, is_undef, is_float}
use libcbor.Memory.{Allocator}

-- What the four predicates answer.
abbrev pub Answers : Bool → Bool → Bool → Bool → Item → Type 0
Answers bool null undef float y =
    (is_bool y ≡ bool) × (is_null y ≡ null) × (is_undef y ≡ undef) × (is_float y ≡ float)

ctrl-Gives :
    (v : ℕ) (answers : Allocator)
    → Gives (Item.ctrl v) ⊥ answers ((new_ctrl >>= λ item. checked (set_ctrl v item)) answers)
unfolding new_ctrl set_ctrl
ctrl-Gives v answers =
    Ensures-bind new_ctrl (λ item. checked (set_ctrl v item))
      (Gives-one item_size (Item.ctrl 0) ⊥ answers)
      (λ item rest e. rw e (Gives-pure (Item.ctrl v) ⊥ rest))

bool-Answers :
    (b : Bool)
    → Answers true false false false (Item.ctrl (bool_ctrl b))
      × (get_bool (Item.ctrl (bool_ctrl b)) ≡ some b)
unfolding is_bool is_null is_undef is_float get_bool
bool-Answers true = ((refl, refl, refl, refl), refl)
bool-Answers false = ((refl, refl, refl, refl), refl)

null-Answers : Answers false true false false (Item.ctrl 22)
unfolding is_bool is_null is_undef is_float
null-Answers = (refl, refl, refl, refl)

undef-Answers : Answers false false true false (Item.ctrl 23)
unfolding is_bool is_null is_undef is_float
undef-Answers = (refl, refl, refl, refl)

-- Whatever the allocator answers, cbor_build_bool, cbor_new_null and cbor_new_undef return NULL or an
-- item that just the predicate of their name accepts, and cbor_get_bool reads from the first the value
-- that it was built with. They never crash, and NULL needs that an allocation fails.
pub build_bool-Answers :
    (b : Bool) (answers : Allocator)
    → Ensures
        (λ y. Answers true false false false y × (get_bool y ≡ some b))
        ⊥
        answers
        (build_bool b answers)
      × Ensures (Answers false true false false) ⊥ answers (new_null answers)
      × Ensures (Answers false false true false) ⊥ answers (new_undef answers)
unfolding build_bool build_ctrl new_null new_undef
build_bool-Answers b answers = (
  Ensures-map (λ y e. rw e (bool-Answers b)) (ctrl-Gives (bool_ctrl b) answers),
  Ensures-map (λ y e. rw e null-Answers) (ctrl-Gives 22 answers),
  Ensures-map (λ y e. rw e undef-Answers) (ctrl-Gives 23 answers),
)

-- A float of that width, with those bits behind both getters.
abbrev pub IsFloat : (Item → Option ℕ) → FloatWidth → (ℕ → ℕ) → ℕ → ℕ → Item → Type 0
IsFloat get width to_double v double y =
    Answers false false false true y
    × (float_get_width y ≡ some width)
    × (get y ≡ some v)
    × (get_float to_double y ≡ some double)

float2-IsFloat :
    (to_double : ℕ → ℕ) (v : ℕ)
    → IsFloat get_float2 FloatWidth.float_16 to_double v (to_double v) (Item.float2 v)
unfolding is_bool is_null is_undef is_float get_float2 get_float
float2-IsFloat to_double v = ((refl, refl, refl, refl), refl, refl, refl)

float4-IsFloat :
    (to_double : ℕ → ℕ) (v : ℕ)
    → IsFloat get_float4 FloatWidth.float_32 to_double v (to_double v) (Item.float4 v)
unfolding is_bool is_null is_undef is_float get_float4 get_float
float4-IsFloat to_double v = ((refl, refl, refl, refl), refl, refl, refl)

float8-IsFloat :
    (to_double : ℕ → ℕ) (v : ℕ)
    → IsFloat get_float8 FloatWidth.float_64 to_double v v (Item.float8 v)
unfolding is_bool is_null is_undef is_float get_float8 get_float
float8-IsFloat to_double v = ((refl, refl, refl, refl), refl, refl, refl)

-- Whatever the allocator answers and whatever its memory holds, the three constructors of floats
-- return NULL, or a float of their width with the bits that they were given; cbor_float_get_float
-- converts the two short ones to a double. They never crash, and NULL needs that an allocation fails.
pub build_float2-IsFloat :
    (to_double : ℕ → ℕ) (garbage v : ℕ) (answers : Allocator)
    → Ensures
        (IsFloat get_float2 FloatWidth.float_16 to_double v (to_double v))
        ⊥
        answers
        (build_float2 garbage v answers)
      × Ensures
          (IsFloat get_float4 FloatWidth.float_32 to_double v (to_double v))
          ⊥
          answers
          (build_float4 garbage v answers)
      × Ensures
          (IsFloat get_float8 FloatWidth.float_64 to_double v v)
          ⊥
          answers
          (build_float8 garbage v answers)
build_float2-IsFloat to_double garbage v answers = (
  Ensures-map (λ y e. rw e (float2-IsFloat to_double v)) (build_float2-Gives garbage v ⊥ answers),
  Ensures-map (λ y e. rw e (float4-IsFloat to_double v)) (build_float4-Gives garbage v ⊥ answers),
  Ensures-map (λ y e. rw e (float8-IsFloat to_double v)) (build_float8-Gives garbage v ⊥ answers),
)
