-- ===== src/Queue/Item.antt =====
-- internal/queue/types.go, and Less of internal/queue/priority_queue.go. A time is a number of
-- nanoseconds. The index is -1 for an item that has left the heap.
use go_key_pool_system.Prelude.{ℕ, ◌≡◌, String, Bool, true, false, arith, ltb, if◌then◌else◌}
use go_key_pool_system.Prelude.Int.{ℤ, ltb_ℤ, eqb_ℤ}

-- What the callers give of an item.
pub record Entry : Type 0 where
  pub request_id : String
  pub priority : ℤ
  pub created_at : ℕ

pub record Item : Type 0 where
  pub entry : Entry
  pub open entry use *
  pub index : ℤ

-- The order of Less.
unfoldable pub before : Entry → Entry → Bool
before x y =
    if eqb_ℤ x.priority y.priority
    then ltb x.created_at y.created_at
    else ltb_ℤ x.priority y.priority

-- `x` may stand above `y`.
abbrev pub Le : Entry → Entry → Type 0
Le x y = before y x ≡ false

pub le_refl : (x : Entry) → Le x x
unfolding before
le_refl x = ground arith

pub le_trans : (x y z : Entry) → Le x y → Le y z → Le x z
unfolding before
le_trans x y z h k = ground arith

pub le_of_before : (x y : Entry) → before x y ≡ true → Le x y
unfolding before
le_of_before x y h = ground arith
