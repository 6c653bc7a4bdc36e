-- ===== src/Sessions/Ordered.antt =====
-- sessions/memstorage.go: Ordered, a slice kept sorted by a key that each item gives (KeyFielder).
-- Items are generic: `key` is KeyField as a number, on which Less and Equal compare.
pub mod Slices
pub mod Sorted
use droute.Prelude.{
  ℕ, zero, suc, ◌+◌, ◌-◌, Bool, true, false, not, ◌&&◌, Option, none, some, List, [], ◌∷◌, ◌++◌,
  length, get_elem?, set, take, drop, ltb, ◌==◌, if◌then◌else◌, search_index,
}

module _ {A : Type 0} where
  -- copy(dst, src): as many items as both have, read before they are written
  unfoldable pub overwrite : List A → List A → List A
  overwrite [] src = []
  overwrite (d ∷ dst) [] = d ∷ dst
  overwrite (d ∷ dst) (x ∷ src) = x ∷ overwrite dst src

  -- copy(s[to:], s[from:])
  unfoldable pub slice_copy : ℕ → ℕ → List A → List A
  slice_copy to from s = take to s ++ overwrite (drop to s) (drop from s)

module _ {A : Type 0} (key : A → ℕ) where
  -- `!o[i].Less(x)`. The search asks only for indices inside the slice.
  unfoldable pub reaches : ℕ → Option A → Bool
  reaches x none = true
  reaches x (some a) = not (ltb (key a) x)

  unfoldable pub holds : ℕ → Option A → Bool
  holds x none = false
  holds x (some a) = key a == x

  -- search: the index, and whether an item with the key stands there
  unfoldable pub locate : ℕ → List A → ℕ × Bool
  locate x o =
      let i = search_index (λ k. reaches x (get_elem? o k)) (length o) in
      (i, ltb i (length o) && holds x (get_elem? o i))

  -- Ordered.Set; none is the error "item found"
  unfoldable pub set_item : A → List A → Option (List A)
  set_item a o =
      let (i, found) = locate (key a) o in
      let s = slice_copy (i + 1) i (o ++ a ∷ []) in if found then none else some (set s i a)

  -- Ordered.Del, by the key of the item that it is given; none is the error "not found"
  unfoldable pub del_key : ℕ → List A → Option (List A)
  del_key x o =
      let (i, found) = locate x o in
      if found then some (take (length o - 1) (slice_copy i (i + 1) o)) else none
