-- ===== src/Growing.antt =====
-- The growing array that process_cpu_snapshot_take, process_cpu_all_since and process_list_read
-- each fill while they walk /proc.
use rookietop.Common.{
  ℕ, zero, suc, ◌*◌, ◌/◌, ◌+◌, Bool, true, false, List, [], ◌∷◌, ◌++◌, Option, none, some, ltb,
  ◌==◌, if◌then◌else◌, ◌>>=◌, reject_if, length,
}
use rookietop.Libc.Chars.{Bytes}
use rookietop.Libc.Numbers.{u64_max}
pub mod Bounds

-- Whether malloc or realloc gives an array of that many items.
abbrev pub Allocator : Type 0
Allocator = ℕ → Bool

abbrev pub initial_capacity : ℕ
initial_capacity = 128

-- The first `count` cells of the array, and how many it has.
pub record Growing (A : Type 0) : Type 0 where
  pub items : List A
  pub capacity : ℕ

module _ {A : Type 0} (item_size : ℕ) (alloc : Allocator) where
  -- `if (count == capacity) { … realloc … }`: `none` is the exit with -1.
  unfoldable pub make_room : Growing A → Option (Growing A)
  make_room g =
      if length g.items == g.capacity
      then reject_if (ltb (u64_max / 2 / item_size) g.capacity)
          (if alloc (g.capacity * 2) then some (record g { capacity = g.capacity * 2 }) else none)
      else some g

  -- `items[count++] = item;`
  unfoldable pub push : Growing A → A → Option (Growing A)
  push g item = do g' ← make_room g; some (record g' { items = g'.items ++ item ∷ [] })

  -- An entry that gives no item is passed over by `continue`.
  unfoldable pub offer : Growing A → Option A → Option (Growing A)
  offer g none = some g
  offer g (some item) = push g item

  -- The loop over the entries.
  unfoldable pub collect : (Bytes → Option A) → List Bytes → Growing A → Option (Growing A)
  collect read [] g = some g
  collect read (entry ∷ rest) g = offer g (read entry) >>= collect read rest

  -- The array before the loop.
  unfoldable pub allocate : Option (Growing A)
  allocate =
      if alloc initial_capacity
      then some (record { items = []; capacity = initial_capacity })
      else none
