-- ===== src/Top.antt =====
-- insert_top of src/process.c and src/process_cpu.c: the array `out` of `cap` cells keeps the best
-- candidates so far in its first `count` cells. `ge` is the test `>=` on the ranking field.
use rookietop.Common.{
  ℕ, zero, suc, ◌-◌, ◌+◌, Bool, List, [], ◌∷◌, ◌++◌, ltb, leb, if◌then◌else◌, take, drop, set,
}
pub mod Sorted
pub mod Insert

-- memmove(&a[dst], &a[src], n * sizeof(a[0])) within the array
unfoldable pub memmove {ℓ} : {A : Type ℓ} → ℕ → ℕ → ℕ → List A → List A
memmove dst src n a = take dst a ++ (take n (drop src a) ++ drop (dst + n) a)

pub record Top (A : Type 0) : Type 0 where
  pub out : List A
  pub count : ℕ

module _ {A : Type 0} (ge : A → A → Bool) where
  -- `while (pos < *count && ge(out[pos], candidate)) pos++;`, from the cells that are left
  unfoldable pub position : A → ℕ → List A → ℕ
  position candidate zero out = 0
  position candidate (suc n) [] = 0
  position candidate (suc n) (x ∷ xs) =
      let later = suc (position candidate n xs) in if ge x candidate then later else 0

  unfoldable pub insert_top : ℕ → Top A → A → Top A
  insert_top cap t candidate =
      let pos = position candidate t.count t.out in
      let new_count = if ltb t.count cap then suc t.count else t.count in
      let moved =
        if ltb (suc pos) new_count
        then memmove (suc pos) pos (new_count - suc pos) t.out
        else t.out in
      if leb cap pos then t else record { out = set moved pos candidate; count = new_count }

  -- The loop that offers each candidate in turn.
  unfoldable pub insert_all : ℕ → Top A → List A → Top A
  insert_all cap t [] = t
  insert_all cap t (c ∷ cs) = insert_all cap (insert_top cap t c) cs
