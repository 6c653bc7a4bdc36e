-- ===== src/Sessions/Ordered/Slices.antt =====
-- The two uses of copy insert an item into a slice and take one out.
use native.Mathlib.Numerals.{add-one}
use droute.Prelude.{
  ℕ, zero, suc, ◌+◌, ◌-◌, ◌≤◌, ◌<◌, ◌≡◌, refl, ap, ◌∙◌, List, [], ◌∷◌, ◌++◌, length, set, take,
  drop, arith, length-append,
}
use droute.Sessions.Ordered.{overwrite, slice_copy}

module _ {A : Type 0} where
  overwrite-take :
      (dst src : List A) → length dst ≤ length src → overwrite dst src ≡ take (length dst) src
  unfolding overwrite
  overwrite-take [] src h = refl
  overwrite-take (d ∷ dst) [] h = absurd (omega arith)
  overwrite-take (d ∷ dst) (x ∷ src) h = ap (◌∷◌ x) (overwrite-take dst src (omega arith))

  overwrite-all :
      (dst src : List A)
      → length src ≤ length dst
      → overwrite dst src ≡ src ++ drop (length src) dst
  unfolding overwrite
  overwrite-all [] [] h = refl
  overwrite-all (d ∷ dst) [] h = refl
  overwrite-all [] (x ∷ src) h = absurd (omega arith)
  overwrite-all (d ∷ dst) (x ∷ src) h = ap (◌∷◌ x) (overwrite-all dst src (omega arith))

  take-append_length : (xs ys : List A) → take (length xs) (xs ++ ys) ≡ xs
  take-append_length [] ys = refl
  take-append_length (x ∷ xs) ys = ap (◌∷◌ x) (take-append_length xs ys)

  pub insert_lem :
      (i : ℕ) (o : List A) (a : A)
      → i ≤ length o
      → set (slice_copy (i + 1) i (o ++ a ∷ [])) i a ≡ take i o ++ a ∷ drop i o
  unfolding slice_copy overwrite
  insert_lem i o a h = rw (add-one i) (by_index i o h)
    where
      by_index :
          (i : ℕ) (o : List A)
          → i ≤ length o
          → set (slice_copy (suc i) i (o ++ a ∷ [])) i a ≡ take i o ++ a ∷ drop i o
      by_index zero [] h = refl
      by_index zero (x ∷ o) h =
          let e : length (o ++ a ∷ []) ≡ suc (length o) = omega (arith, length-append o (a ∷ [])) in
          ap (◌∷◌ a) (
            overwrite-take (o ++ a ∷ []) (x ∷ o ++ a ∷ []) (omega arith)
            ∙ rw e (ap (◌∷◌ x) (take-append_length o (a ∷ []))))
      by_index (suc i) [] h = absurd (omega arith)
      by_index (suc i) (x ∷ o) h = ap (◌∷◌ x) (by_index i o (omega arith))

  pub delete_lem :
      (i : ℕ) (o : List A)
      → i < length o
      → take (length o - 1) (slice_copy i (i + 1) o) ≡ take i o ++ drop (suc i) o
  unfolding slice_copy
  delete_lem i o h = rw (add-one i) (by_index i o h)
    where
      by_index :
          (i : ℕ) (o : List A)
          → i < length o
          → take (length o - 1) (slice_copy i (suc i) o) ≡ take i o ++ drop (suc i) o
      by_index i [] h = absurd (omega arith)
      by_index zero (x ∷ o) h =
          let e : suc (length o) - 1 ≡ length o = omega arith in
          rw (e, overwrite-all (x ∷ o) o (omega arith)) (take-append_length o _)
      by_index (suc i) (x ∷ []) h = absurd (omega arith)
      by_index (suc i) (x ∷ y ∷ o) h =
          let e : suc (suc (length o)) - 1 ≡ suc (suc (length o) - 1) = omega arith in
          rw e (ap (◌∷◌ x) (by_index i (y ∷ o) (omega arith)))
