-- ===== src/Middlewares/Lists/Sorting.antt =====
-- Sorting keeps the members and gives a sorted list.
use droute.Prelude.{
  ◌≡◌, refl, ◌∙◌, ap, Bool, true, ◌||◌, List, [], ◌∷◌, Bytes, arith, inl, inr, Bool-cases,
}
use droute.Router.Match.{eqb}
use droute.Router.RoundRobin.{contains}
use droute.Middlewares.Lists.{str_le, insert_string, sort_strings}
use droute.Middlewares.Lists.Order.{str_le_total, str_le_trans}

abbrev pub AllFrom : Bytes → List Bytes → Type 0
AllFrom k [] = Unit
AllFrom k (a ∷ l) = (str_le k a ≡ true) × AllFrom k l

abbrev pub IsOrdered : List Bytes → Type 0
IsOrdered [] = Unit
IsOrdered (a ∷ l) = AllFrom a l × IsOrdered l

pub AllFrom-weaken : (k j : Bytes) (l : List Bytes) → AllFrom k l → str_le j k ≡ true → AllFrom j l
AllFrom-weaken k j [] h e = tt
AllFrom-weaken k j (a ∷ l) (h, hs) e = (str_le_trans j k a e h, AllFrom-weaken k j l hs e)

AllFrom-insert_string :
    (k a : Bytes) (l : List Bytes) → AllFrom k l → str_le k a ≡ true → AllFrom k (insert_string a l)
unfolding insert_string
AllFrom-insert_string k a [] h e = (e, tt)
AllFrom-insert_string k a (b ∷ l) (h, hs) e = ground (arith, AllFrom-insert_string k a l hs e)

insert_string-IsOrdered : (a : Bytes) (l : List Bytes) → IsOrdered l → IsOrdered (insert_string a l)
unfolding insert_string
insert_string-IsOrdered a [] s = (tt, tt)
insert_string-IsOrdered a (b ∷ l) (above, s) = elim (Bool-cases (str_le a b)) [
  | inl less ↦ rw less ((less, AllFrom-weaken b a l above less), (above, s))
  | inr more ↦
      rw more
        (AllFrom-insert_string b a l above (str_le_total a b more), insert_string-IsOrdered a l s)
]

pub sort_strings-IsOrdered : (l : List Bytes) → IsOrdered (sort_strings l)
unfolding sort_strings
sort_strings-IsOrdered [] = tt
sort_strings-IsOrdered (a ∷ l) =
    insert_string-IsOrdered a (sort_strings l) (sort_strings-IsOrdered l)

contains-insert_string :
    (x a : Bytes) (l : List Bytes) → contains x (insert_string a l) ≡ (eqb a x || contains x l)
unfolding contains insert_string
contains-insert_string x a [] = refl
contains-insert_string x a (b ∷ l) = ground (arith, contains-insert_string x a l)

pub contains-sort_strings :
    (x : Bytes) (l : List Bytes) → contains x (sort_strings l) ≡ contains x l
unfolding contains sort_strings
contains-sort_strings x [] = refl
contains-sort_strings x (a ∷ l) =
    contains-insert_string x a (sort_strings l)
    ∙ ap (λ (b : Bool). eqb a x || b) (contains-sort_strings x l)
