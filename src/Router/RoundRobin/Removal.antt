-- ===== src/Router/RoundRobin/Removal.antt =====
-- What Remove leaves of the addresses of an entry.
use droute.Prelude.{
  ℕ, zero, suc, ◌+◌, ◌-◌, ◌≡◌, refl, ◌∙◌, sym, ap, ◌⊎◌, inl, inr, true, false, ◌||◌, List, [], ◌∷◌,
  ◌++◌, Bytes, arith, if◌then◌else◌, Bool-cases, length, take, drop, length-append,
}
use mathlib.Core.List.{append-nil, append_assoc}
use droute.Router.Match.{eqb}
use droute.Router.RoundRobin.{Ips, contains, cut, remove_from, remove_ip}

pub contains-append :
    (ip : Bytes) (xs ys : List Bytes) → contains ip (xs ++ ys) ≡ (contains ip xs || contains ip ys)
unfolding contains
contains-append ip [] ys = refl
contains-append ip (x ∷ xs) ys = ground (arith, contains-append ip xs ys)

eq_of_eqb : (a b : Bytes) → eqb a b ≡ true → a ≡ b
unfolding eqb
eq_of_eqb a b h = ground arith

module _ (q t : Bytes) (post : List Bytes) where
  take-length : (n : ℕ) (pre : List Bytes) → n ≡ length pre → take n (pre ++ q ∷ t ∷ post) ≡ pre
  take-length zero [] e = refl
  take-length zero (x ∷ pre) e = absurd (omega arith)
  take-length (suc n) [] e = absurd (omega arith)
  take-length (suc n) (x ∷ pre) e = ap (◌∷◌ x) (take-length n pre (omega arith))

  drop-length :
      (n : ℕ) (pre : List Bytes) → n ≡ length pre + 2 → drop n (pre ++ q ∷ t ∷ post) ≡ post
  drop-length n [] e = rw e refl
  drop-length zero (x ∷ pre) e = absurd (omega arith)
  drop-length (suc n) (x ∷ pre) e = drop-length n pre (omega arith)

cut_after :
    (q t : Bytes) (post : List Bytes) (i : ℕ) (pre : List Bytes)
    → i ≡ length pre + 1
    → cut i (pre ++ q ∷ t ∷ post) ≡ pre ++ post
unfolding cut
cut_after q t [] i pre e =
    ground (arith, length-append pre (q ∷ t ∷ []), take-length q t [] (i - 1) pre, append-nil pre)
cut_after q t (x ∷ post) i pre e = ground (
  arith,
  length-append pre (q ∷ t ∷ x ∷ post),
  take-length q t (x ∷ post) (i - 1) pre,
  drop-length q t (x ∷ post) (i + 1) pre,
)

cut_front : (t : Bytes) (post : List Bytes) → cut 0 (t ∷ post) ≡ post
unfolding cut
cut_front t [] = refl
cut_front t (x ∷ post) = ground arith

contains_one : (t ip : Bytes) → eqb ip t ≡ false → (false || contains t (ip ∷ [])) ≡ false
unfolding contains
contains_one t ip h = ground arith

-- How an address can stand in a list, and what Remove makes of it.
abbrev pub Absent : Bytes → List Bytes → List Bytes → Type 0
Absent t xs ys = (contains t xs ≡ false) × (ys ≡ xs)

abbrev pub InFront : Bytes → List Bytes → List Bytes → Type 0
InFront t xs ys = xs ≡ t ∷ ys

-- The first occurrence of `t` has `q` in front of it, and both are gone.
abbrev pub Behind : Bytes → List Bytes → List Bytes → Type 0
Behind t xs ys =
    (pre : List Bytes) × (q : Bytes) × (post : List Bytes) × (xs ≡ pre ++ q ∷ t ∷ post)
    × (contains t (pre ++ q ∷ []) ≡ false)
    × (ys ≡ pre ++ post)

remove_from-behind_lem :
    (t : Bytes) (i : ℕ) (pre : List Bytes) (q : Bytes) (rest xs : List Bytes)
    → i ≡ length pre + 1
    → xs ≡ pre ++ q ∷ rest
    → contains t (pre ++ q ∷ []) ≡ false
    → Absent t xs (remove_from t i rest xs) ⊎ Behind t xs (remove_from t i rest xs)
unfolding remove_from
remove_from-behind_lem t i pre q [] xs e f h = inl (rw f h, refl)
remove_from-behind_lem t i pre q (ip ∷ rest) xs e f h = elim (Bool-cases (eqb ip t)) [
  | inl here ↦
      let found : xs ≡ pre ++ q ∷ t ∷ rest = rw (← eq_of_eqb ip t here) f in
      rw here (inr (pre, q, rest, found, h, rw found (cut_after q t rest i pre e)))
  | inr other ↦ rw other (
      remove_from-behind_lem t (i + 1) (pre ++ q ∷ []) ip rest xs
        (omega (arith, length-append pre (q ∷ [])))
        (f ∙ sym (append_assoc pre (q ∷ []) (ip ∷ rest)))
        (contains-append t (pre ++ q ∷ []) (ip ∷ []) ∙ rw h (contains_one t ip other)))
]

abbrev Removes : Bytes → List Bytes → List Bytes → Type 0
Removes t xs ys = Absent t xs ys ⊎ InFront t xs ys ⊎ Behind t xs ys

contains-nil : (t : Bytes) → contains t [] ≡ false
unfolding contains
contains-nil t = refl

remove_from_cons :
    (t x : Bytes) (xs : List Bytes)
    → remove_from t 0 (x ∷ xs) (x ∷ xs)
      ≡ (if eqb x t then cut 0 (x ∷ xs) else remove_from t 1 xs (x ∷ xs))
unfolding remove_from
remove_from_cons t x xs = refl

remove_from_cases : (t : Bytes) (xs : List Bytes) → Removes t xs (remove_from t 0 xs xs)
remove_from_cases t [] = inl (contains-nil t, unfold remove_from in refl)
remove_from_cases t (x ∷ xs) = elim (Bool-cases (eqb x t)) [
  | inl here ↦
      rw (remove_from_cons t x xs, here, eq_of_eqb x t here, cut_front t xs) (inr (inl refl))
  | inr other ↦
      rw (remove_from_cons t x xs, other)
        (widen
          (remove_from-behind_lem t 1 [] x xs (x ∷ xs) (omega arith) refl (contains_one t x other)))
]
  where
    widen : {ys : List Bytes} → Absent t (x ∷ xs) ys ⊎ Behind t (x ∷ xs) ys → Removes t (x ∷ xs) ys
    widen (inl absent) = inl absent
    widen (inr behind) = inr (inr behind)

-- Remove leaves the addresses as they are if the target is not among them; it takes the target
-- away if that is the first of them; and otherwise it takes away the target's first occurrence
-- together with the address in front of it.
pub remove_ip_cases :
    (t : Bytes) (p : Ips)
    → Absent t p.ips (remove_ip t p).ips
      ⊎ InFront t p.ips (remove_ip t p).ips
      ⊎ Behind t p.ips (remove_ip t p).ips
unfolding remove_ip
remove_ip_cases t p = remove_from_cases t p.ips
