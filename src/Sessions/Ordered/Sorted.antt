-- ===== src/Sessions/Ordered/Sorted.antt =====
-- Set and Del on a sorted slice are an insertion and a deletion by recursion.
use droute.Prelude.{
  ℕ, zero, suc, ◌≤◌, ◌<◌, ◌≡◌, refl, ap, Bool, true, false, ◌&&◌, ◌||◌, none, some, List, [], ◌∷◌,
  ◌++◌, length, get_elem?, take, drop, ltb, ◌==◌, if◌then◌else◌, arith, inl, inr, Bool-cases,
  search_index, search_index-IsLeast, IsLeast, IsLeast-unique, IsMonotone,
}
use droute.Sessions.Ordered.{reaches, holds, locate, set_item, del_key}
use droute.Sessions.Ordered.Slices.{insert_lem, delete_lem}

module _ {A : Type 0} (key : A → ℕ) where
  abbrev pub AllAbove : ℕ → List A → Type 0
  AllAbove k [] = Unit
  AllAbove k (a ∷ o) = (k < key a) × AllAbove k o

  -- The keys grow strictly.
  abbrev pub IsSorted : List A → Type 0
  IsSorted [] = Unit
  IsSorted (a ∷ o) = AllAbove (key a) o × IsSorted o

  unfoldable pub has_key : ℕ → List A → Bool
  has_key x [] = false
  has_key x (a ∷ o) = key a == x || has_key x o

  unfoldable pub ordered_insert : A → List A → List A
  ordered_insert a [] = a ∷ []
  ordered_insert a (b ∷ o) = if ltb (key b) (key a) then b ∷ ordered_insert a o else a ∷ b ∷ o

  unfoldable pub ordered_delete : ℕ → List A → List A
  ordered_delete x [] = []
  ordered_delete x (b ∷ o) = if key b == x then o else b ∷ ordered_delete x o

  pub rank : ℕ → List A → ℕ
  rank x [] = 0
  rank x (a ∷ o) = if ltb (key a) x then suc (rank x o) else 0

  abbrev probe : ℕ → List A → ℕ → Bool
  probe x o k = reaches key x (get_elem? o k)

  probe-AllAbove : (k x b : ℕ) (o : List A) → AllAbove k o → x ≤ k → probe x o b ≡ true
  unfolding reaches
  probe-AllAbove k x b [] h e = refl
  probe-AllAbove k x zero (a ∷ o) (h, hs) e = ground arith
  probe-AllAbove k x (suc b) (a ∷ o) (h, hs) e = probe-AllAbove k x b o hs e

  probe-IsMonotone : (x : ℕ) (o : List A) → IsSorted o → IsMonotone (probe x o) (length o)
  unfolding reaches
  probe-IsMonotone x [] s a b h lt e = refl
  probe-IsMonotone x (c ∷ o) (above, s) zero zero h lt e = e
  probe-IsMonotone x (c ∷ o) (above, s) zero (suc b) h lt e =
      probe-AllAbove (key c) x b o above (ground arith)
  probe-IsMonotone x (c ∷ o) (above, s) (suc a) zero h lt e = absurd (omega arith)
  probe-IsMonotone x (c ∷ o) (above, s) (suc a) (suc b) h lt e =
      probe-IsMonotone x o s a b (omega arith) (omega arith) e

  rank-IsLeast : (x : ℕ) (o : List A) → IsSorted o → IsLeast (probe x o) (length o) (rank x o)
  unfolding reaches rank
  rank-IsLeast x [] s = record {
    bound = omega arith;
    below = λ k h. absurd (omega arith);
    above = λ k h g. refl;
  }
  rank-IsLeast x (a ∷ o) (above, s) =
      let r = rank-IsLeast x o s in
      elim (Bool-cases (ltb (key a) x)) [
        | inl less ↦ rw less (record {
          bound = omega (arith, r.bound);
          below = elim [ zero ↦ λ h. ground arith | suc k ↦ λ h. r.below k (omega arith) ];
          above = elim [
            | zero ↦ λ h g. absurd (omega arith)
            | suc k ↦ λ h g. r.above k (omega arith) (omega arith)
          ];
        })
        | inr more ↦ rw more (record {
          bound = omega arith;
          below = λ k h. absurd (omega arith);
          above = elim [
            | zero ↦ λ h g. ground arith
            | suc k ↦ λ h g. probe-AllAbove (key a) x k o above (ground arith)
          ];
        })
      ]

  has_key-AllAbove : (k x : ℕ) (o : List A) → AllAbove k o → x ≤ k → has_key x o ≡ false
  unfolding has_key
  has_key-AllAbove k x [] h e = refl
  has_key-AllAbove k x (a ∷ o) (h, hs) e = ground (arith, has_key-AllAbove k x o hs e)

  found_at_rank :
      (x : ℕ) (o : List A)
      → IsSorted o
      → (ltb (rank x o) (length o) && holds key x (get_elem? o (rank x o))) ≡ has_key x o
  unfolding rank holds has_key
  found_at_rank x [] s = refl
  found_at_rank x (a ∷ o) (above, s) = elim (Bool-cases (ltb (key a) x)) [
    | inl less ↦ ground (arith, found_at_rank x o s)
    | inr more ↦ ground (arith, has_key-AllAbove (key a) x o above)
  ]

  -- The search of a sorted slice.
  pub locate_lem : (x : ℕ) (o : List A) → IsSorted o → locate key x o ≡ (rank x o, has_key x o)
  unfolding locate
  locate_lem x o s =
      let found = search_index-IsLeast (probe x o) (length o) (probe-IsMonotone x o s) in
      let at : search_index (probe x o) (length o) ≡ rank x o =
        IsLeast-unique (probe x o) (length o) _ _ found (rank-IsLeast x o s) in
      rw at (ap (λ (b : Bool). (rank x o, b)) (found_at_rank x o s))

  rank-le : (x : ℕ) (o : List A) → rank x o ≤ length o
  unfolding rank
  rank-le x [] = omega arith
  rank-le x (a ∷ o) = ground (arith, rank-le x o)

  take-rank :
      (a : A) (o : List A)
      → take (rank (key a) o) o ++ a ∷ drop (rank (key a) o) o ≡ ordered_insert a o
  unfolding rank ordered_insert
  take-rank a [] = refl
  take-rank a (b ∷ o) = ground (arith, take-rank a o)

  take-rank-drop :
      (x : ℕ) (o : List A)
      → IsSorted o
      → has_key x o ≡ true
      → (rank x o < length o) × (take (rank x o) o ++ drop (suc (rank x o)) o ≡ ordered_delete x o)
  unfolding rank ordered_delete has_key
  take-rank-drop x [] s h = absurd (cc)
  take-rank-drop x (a ∷ o) (above, s) h = elim (Bool-cases (ltb (key a) x)) [
    | inl less ↦ let (lt, e) = take-rank-drop x o s (ground arith) in (ground arith, ground arith)
    | inr more ↦ (ground arith, ground (arith, has_key-AllAbove (key a) x o above))
  ]

  -- On a sorted slice Set refuses an item whose key is there and otherwise puts the item in front
  -- of the first greater one.
  pub set_item_lem :
      (a : A) (o : List A)
      → IsSorted o
      → set_item key a o ≡ (if has_key (key a) o then none else some (ordered_insert a o))
  unfolding set_item
  set_item_lem a o s =
      rw
        (locate_lem (key a) o s, insert_lem (rank (key a) o) o a (rank-le (key a) o), take-rank a o)
        refl

  -- On a sorted slice Del refuses a key that is not there and otherwise takes out its item.
  pub del_key_lem :
      (x : ℕ) (o : List A)
      → IsSorted o
      → del_key key x o ≡ (if has_key x o then some (ordered_delete x o) else none)
  unfolding del_key
  del_key_lem x o s = elim (Bool-cases (has_key x o)) [
    | inl there ↦
        let (lt, e) = take-rank-drop x o s there in
        rw (locate_lem x o s, there, delete_lem (rank x o) o lt, e) refl
    | inr absent ↦ rw (locate_lem x o s, absent) refl
  ]

  AllAbove-insert :
      (k : ℕ) (a : A) (o : List A) → AllAbove k o → k < key a → AllAbove k (ordered_insert a o)
  unfolding ordered_insert
  AllAbove-insert k a [] h lt = (lt, tt)
  AllAbove-insert k a (b ∷ o) (h, hs) lt = ground (arith, AllAbove-insert k a o hs lt)

  AllAbove-weaken : (k j : ℕ) (o : List A) → AllAbove k o → j ≤ k → AllAbove j o
  AllAbove-weaken k j [] h e = tt
  AllAbove-weaken k j (a ∷ o) (h, hs) e = (omega arith, AllAbove-weaken k j o hs e)

  pub ordered_insert-IsSorted :
      (a : A) (o : List A) → IsSorted o → has_key (key a) o ≡ false → IsSorted (ordered_insert a o)
  unfolding ordered_insert has_key
  ordered_insert-IsSorted a [] s h = (tt, tt)
  ordered_insert-IsSorted a (b ∷ o) (above, s) h = elim (Bool-cases (ltb (key b) (key a))) [
    | inl less ↦ rw less (
      AllAbove-insert (key b) a o above (ground arith),
      ordered_insert-IsSorted a o s (ground arith),
    )
    | inr more ↦
        let lt : key a < key b = ground arith in
        rw more ((lt, AllAbove-weaken (key b) (key a) o above (omega arith)), (above, s))
  ]

  AllAbove-delete : (k x : ℕ) (o : List A) → AllAbove k o → AllAbove k (ordered_delete x o)
  unfolding ordered_delete
  AllAbove-delete k x [] h = tt
  AllAbove-delete k x (b ∷ o) (h, hs) = ground (arith, AllAbove-delete k x o hs)

  pub ordered_delete-IsSorted : (x : ℕ) (o : List A) → IsSorted o → IsSorted (ordered_delete x o)
  unfolding ordered_delete
  ordered_delete-IsSorted x [] s = tt
  ordered_delete-IsSorted x (b ∷ o) (above, s) = elim (Bool-cases (key b == x)) [
    | inl here ↦ rw here s
    | inr other ↦ rw other (AllAbove-delete (key b) x o above, ordered_delete-IsSorted x o s)
  ]
