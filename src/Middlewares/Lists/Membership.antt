-- ===== src/Middlewares/Lists/Membership.antt =====
-- Exist finds what Update was given.
use droute.Prelude.{
  ℕ, zero, suc, ◌≡◌, refl, ◌∙◌, Bool, true, false, ◌&&◌, List, [], ◌∷◌, Bytes, length, get_elem?,
  ltb, if◌then◌else◌, arith, inl, inr, Bool-cases, search_index, search_index-IsLeast, IsLeast,
  IsLeast-unique, IsMonotone,
}
use droute.Router.Match.{eqb}
use droute.Router.RoundRobin.{contains}
use droute.Middlewares.Lists.{
  str_le, str_reaches, str_holds, sort_strings, exist_text, update_text_list,
}
use droute.Middlewares.Lists.Order.{str_le_refl, str_le_antisym, str_le_trans}
use droute.Middlewares.Lists.Sorting.{
  AllFrom, IsOrdered, sort_strings-IsOrdered, contains-sort_strings,
}

str_rank : Bytes → List Bytes → ℕ
str_rank x [] = 0
str_rank x (a ∷ l) = if str_le x a then 0 else suc (str_rank x l)

abbrev probe : Bytes → List Bytes → ℕ → Bool
probe x l k = str_reaches x (get_elem? l k)

probe-AllFrom :
    (k x : Bytes) (b : ℕ) (l : List Bytes) → AllFrom k l → str_le x k ≡ true → probe x l b ≡ true
unfolding str_reaches
probe-AllFrom k x b [] h e = refl
probe-AllFrom k x zero (a ∷ l) (h, hs) e = str_le_trans x k a e h
probe-AllFrom k x (suc b) (a ∷ l) (h, hs) e = probe-AllFrom k x b l hs e

probe-IsMonotone : (x : Bytes) (l : List Bytes) → IsOrdered l → IsMonotone (probe x l) (length l)
unfolding str_reaches
probe-IsMonotone x [] s a b h lt e = refl
probe-IsMonotone x (c ∷ l) (above, s) zero zero h lt e = e
probe-IsMonotone x (c ∷ l) (above, s) zero (suc b) h lt e = probe-AllFrom c x b l above e
probe-IsMonotone x (c ∷ l) (above, s) (suc a) zero h lt e = absurd (omega arith)
probe-IsMonotone x (c ∷ l) (above, s) (suc a) (suc b) h lt e =
    probe-IsMonotone x l s a b (omega arith) (omega arith) e

rank-IsLeast :
    (x : Bytes) (l : List Bytes) → IsOrdered l → IsLeast (probe x l) (length l) (str_rank x l)
unfolding str_reaches str_rank
rank-IsLeast x [] s = record {
  bound = omega arith;
  below = λ k h. absurd (omega arith);
  above = λ k h g. refl;
}
rank-IsLeast x (a ∷ l) (above, s) =
    let r = rank-IsLeast x l s in
    elim (Bool-cases (str_le x a)) [
      | inr less ↦ rw less (record {
        bound = omega (arith, r.bound);
        below = elim [ zero ↦ λ h. less | suc k ↦ λ h. r.below k (omega arith) ];
        above = elim [
          | zero ↦ λ h g. absurd (omega arith)
          | suc k ↦ λ h g. r.above k (omega arith) (omega arith)
        ];
      })
      | inl more ↦ rw more (record {
        bound = omega arith;
        below = λ k h. absurd (omega arith);
        above = elim [ zero ↦ λ h g. more | suc k ↦ λ h g. probe-AllFrom a x k l above more ];
      })
    ]

eqb_after : (a x : Bytes) → str_le x a ≡ false → eqb a x ≡ false
unfolding eqb
eqb_after a x h = ground (arith, str_le_refl a)

eqb_apart : (k a x : Bytes) → str_le k a ≡ true → str_le k x ≡ false → eqb a x ≡ false
unfolding eqb
eqb_apart k a x h e = ground arith

str_le_apart : (a x : Bytes) → str_le x a ≡ true → eqb a x ≡ false → str_le a x ≡ false
unfolding eqb
str_le_apart a x h e = ground (arith, str_le_antisym a x)

contains-AllFrom :
    (k x : Bytes) (l : List Bytes) → AllFrom k l → str_le k x ≡ false → contains x l ≡ false
unfolding contains
contains-AllFrom k x [] h e = refl
contains-AllFrom k x (a ∷ l) (h, hs) e =
    let differs = eqb_apart k a x h e in ground (arith, contains-AllFrom k x l hs e)

found_at_rank :
    (x : Bytes) (l : List Bytes)
    → IsOrdered l
    → (ltb (str_rank x l) (length l) && str_holds x (get_elem? l (str_rank x l))) ≡ contains x l
unfolding str_rank str_holds contains
found_at_rank x [] s = refl
found_at_rank x (a ∷ l) (above, s) = elim (Bool-cases (str_le x a)) [
  | inr less ↦ let differs = eqb_after a x less in ground (arith, found_at_rank x l s)
  | inl more ↦ elim (Bool-cases (eqb a x)) [
    | inl same ↦ ground arith
    | inr other ↦
        let absent = contains-AllFrom a x l above (str_le_apart a x more other) in ground arith
  ]
]

pub exist_text-IsOrdered :
    (x : Bytes) (l : List Bytes) → IsOrdered l → exist_text x l ≡ contains x l
unfolding exist_text
exist_text-IsOrdered x l s =
    let found = search_index-IsLeast (probe x l) (length l) (probe-IsMonotone x l s) in
    let at : search_index (probe x l) (length l) ≡ str_rank x l =
      IsLeast-unique (probe x l) (length l) _ _ found (rank-IsLeast x l s) in
    rw at (found_at_rank x l s)

abbrev pub read_or_kept : List Bytes → List Bytes → List Bytes
read_or_kept [] l = l
read_or_kept (a ∷ slice) l = a ∷ slice

-- Update of a sorted TextList leaves it sorted, and Exist then finds exactly the strings of the slice that was read, or those of the old list if that slice is empty.
pub exist_text-update_text_list :
    (x : Bytes) (slice l : List Bytes)
    → IsOrdered l
    → IsOrdered (update_text_list slice l)
      × (exist_text x (update_text_list slice l) ≡ contains x (read_or_kept slice l))
unfolding update_text_list
exist_text-update_text_list x [] l s = (s, exist_text-IsOrdered x l s)
exist_text-update_text_list x (a ∷ slice) l s =
    let sorted = sort_strings-IsOrdered (a ∷ slice) in
    (
      sorted,
      exist_text-IsOrdered x (sort_strings (a ∷ slice)) sorted
          ∙ contains-sort_strings x (a ∷ slice),
    )
