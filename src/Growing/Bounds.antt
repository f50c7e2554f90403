-- ===== src/Growing/Bounds.antt =====
-- The growing array is never written past its end, its size never overflows, and it ends up with
-- the items of all entries.
use rookietop.Common.{
  ℕ, ◌*◌, ◌/◌, ◌+◌, ◌≤◌, ◌<◌, ◌≡◌, refl, true, false, List, [], ◌∷◌, ◌++◌, Option, none, some, ltb,
  ◌==◌, if◌then◌else◌, length, arith, length-append, >>=-eq-some, ◌∙◌,
}
use mathlib.Core.List.{append_assoc, append-nil}
use rookietop.Libc.Chars.{Bytes}
use rookietop.Libc.Numbers.{u64_max}
use rookietop.Growing.{
  Allocator, initial_capacity, Growing, make_room, push, offer, collect, allocate,
}

abbrev with_item : {A : Type 0} → Option A → List A → List A
with_item none items = items
with_item (some item) items = item ∷ items

module _ {A : Type 0} where
  -- The items that the entries give, in order.
  unfoldable pub items_of : (Bytes → Option A) → List Bytes → List A
  items_of read [] = []
  items_of read (entry ∷ rest) = with_item (read entry) (items_of read rest)

-- The items lie within the array, and its size in bytes within size_t.
pub record IsRoomy {A : Type 0} (item_size : ℕ) (g : Growing A) : Type 0 where
  pub within : length g.items ≤ g.capacity
  pub sized : g.capacity * item_size ≤ u64_max
  pub nonempty : 0 < g.capacity

div_mul_le : (m s : ℕ) → m / s * s ≤ m
div_mul_le m s = grind arith

double_fits :
    (item_size capacity : ℕ)
    → ltb (u64_max / 2 / item_size) capacity ≡ false
    → capacity * 2 * item_size ≤ u64_max
double_fits item_size capacity h =
    let small : capacity ≤ u64_max / 2 / item_size = ground arith in
    let scaled : capacity * item_size ≤ u64_max / 2 / item_size * item_size = grind arith in
    omega (arith, div_mul_le (u64_max / 2) item_size)

module _ {A : Type 0} (item_size : ℕ) (alloc : Allocator) where
  offer-IsRoomy :
      (g : Growing A) (o : Option A) (more : List A) {g' : Growing A}
      → IsRoomy item_size g
      → offer item_size alloc g o ≡ some g'
      → IsRoomy item_size g' × (g'.items ++ more ≡ g.items ++ with_item o more)
  unfolding offer push make_room
  offer-IsRoomy g none more r h = ground arith
  offer-IsRoomy g (some item) more r h = ground (
    arith,
    double_fits item_size g.capacity,
    length-append g.items (item ∷ []),
    append_assoc g.items (item ∷ []) more,
  )

  -- However many entries there are, a loop that ends keeps the items within the array and the
  -- array within size_t, and has added the items of all entries in their order.
  pub collect-IsRoomy :
      (read : Bytes → Option A) (entries : List Bytes) (g : Growing A) {g' : Growing A}
      → IsRoomy item_size g
      → collect item_size alloc read entries g ≡ some g'
      → IsRoomy item_size g' × (g'.items ≡ g.items ++ items_of read entries)
  unfolding collect items_of
  collect-IsRoomy read [] g r h = ground (arith, append-nil g.items)
  collect-IsRoomy read (entry ∷ rest) g r h =
      let (g1, offered, later) =
        >>=-eq-some (offer item_size alloc g (read entry)) (collect item_size alloc read rest) h in
      let (r1, added) = offer-IsRoomy g (read entry) (items_of read rest) r offered in
      let (r2, all) = collect-IsRoomy read rest g1 r1 later in (r2, all ∙ added)

  offer_succeeds :
      (g : Growing A) (o : Option A) (more : List A)
      → ((n : ℕ) → alloc n ≡ true)
      → length g.items + length (with_item o more) ≤ u64_max / 2 / item_size
      → (g' : Growing A) × (offer item_size alloc g o ≡ some g')
        × (length g'.items + length more ≡ length g.items + length (with_item o more))
  unfolding offer push make_room
  offer_succeeds g none more ok few = (g, refl, refl)
  offer_succeeds g (some item) more ok few = (
    record {
      items = g.items ++ item ∷ [];
      capacity = if length g.items == g.capacity then g.capacity * 2 else g.capacity;
    },
    ground (arith, ok (g.capacity * 2)),
    omega (arith, length-append g.items (item ∷ [])),
  )

  -- While every allocation succeeds and the items are few enough for their size, the loop ends.
  pub collect_succeeds :
      (read : Bytes → Option A) (entries : List Bytes) (g : Growing A)
      → ((n : ℕ) → alloc n ≡ true)
      → length g.items + length (items_of read entries) ≤ u64_max / 2 / item_size
      → (g' : Growing A) × (collect item_size alloc read entries g ≡ some g')
  unfolding collect items_of
  collect_succeeds read [] g ok few = (g, refl)
  collect_succeeds read (entry ∷ rest) g ok few =
      let (g1, offered, sum) = offer_succeeds g (read entry) (items_of read rest) ok few in
      let (g2, rest_done) = collect_succeeds read rest g1 ok (omega arith) in
      (g2, rw offered rest_done)

  pub allocate-IsRoomy :
      {g : Growing A}
      → initial_capacity * item_size ≤ u64_max
      → allocate item_size alloc ≡ some g
      → IsRoomy item_size g × (g.items ≡ [])
  unfolding allocate
  allocate-IsRoomy small h = ground arith
