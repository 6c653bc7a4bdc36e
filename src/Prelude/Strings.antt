-- ===== src/Prelude/Strings.antt =====
-- A Go string is the list of its bytes. `codes` reads a literal, which is ASCII throughout.
use Prim.Native.Nat.{ℕ, zero, suc, ◌-◌}
use Prim.Native.Char.{code}
use Prim.Native.String.{String}
use mathlib.Core.Path.{◌≡◌, refl, ap}
use mathlib.Core.Logic.{ite, ◌↔◌, ◌⊎◌, ◌≢◌, inl, inr}
use mathlib.Core.Bool.{Bool, true, false, ◌&&◌}
use mathlib.Core.List.{List, [], ◌∷◌, ◌++◌}
use native.Mathlib.Decide.{ℕ_discrete}
use native.Mathlib.Omega.{arith}
use droute.Prelude.Tests.{◌==◌, if◌then◌else◌, Bool-cases}
use droute.Prelude.Lists.{length, drop}

abbrev pub Bytes : Type 0
Bytes = List ℕ

abbrev pub codes : String → Bytes
codes String.[] = []
codes (String.◌∷◌ c s) = code c ∷ codes s

unfoldable pub bytes_discrete : Discrete Bytes
unfolding ℕ_discrete
bytes_discrete = hlevel ℕ_discrete

-- strings.HasPrefix(s, p)
unfoldable pub has_prefix : Bytes → Bytes → Bool
has_prefix s [] = true
has_prefix [] (c ∷ p) = false
has_prefix (b ∷ s) (c ∷ p) = b == c && has_prefix s p

-- strings.TrimPrefix(s, p)
unfoldable pub trim_prefix : Bytes → Bytes → Bytes
unfolding has_prefix
trim_prefix s p = if has_prefix s p then drop (length p) s else s

abbrev onto_head : ℕ → List Bytes → List Bytes
onto_head b [] = (b ∷ []) ∷ []
onto_head b (part ∷ parts) = (b ∷ part) ∷ parts

-- `skip` counts the bytes of a separator that are still to be passed over.
split_from : Bytes → ℕ → Bytes → List Bytes
split_from sep skip [] = [] ∷ []
split_from sep (suc skip) (b ∷ s) = split_from sep skip s
split_from sep zero (b ∷ s) =
    let closed = [] ∷ split_from sep (length sep - 1) s in
    let longer = onto_head b (split_from sep zero s) in
    if has_prefix (b ∷ s) sep then closed else longer

-- strings.Split(s, sep) for a separator that is not empty
unfoldable pub split : Bytes → Bytes → List Bytes
unfolding split_from has_prefix
split s sep = split_from sep zero s

split_runs : split (codes "a:b::c") (codes ":") ≡ codes "a" ∷ codes "b" ∷ [] ∷ codes "c" ∷ []
unfolding split
split_runs = refl

bytes_discrete_runs : ite (bytes_discrete (codes "ab") (codes "ab")) true false ≡ true
unfolding bytes_discrete
bytes_discrete_runs = refl

-- The part of a string in front of the first occurrence of `sep`, or all of it.
unfoldable pub before : Bytes → Bytes → Bytes
unfolding has_prefix
before sep [] = []
before sep (b ∷ s) = let rest = b ∷ before sep s in if has_prefix (b ∷ s) sep then [] else rest

-- The first part that strings.Split gives.
pub split-before : (s sep : Bytes) → (parts : List Bytes) × (split s sep ≡ before sep s ∷ parts)
unfolding split before
split-before [] sep = ([], refl)
split-before (b ∷ s) sep = elim (Bool-cases (has_prefix (b ∷ s) sep)) [
  | inl here ↦ (split_from sep (length sep - 1) s, ground arith)
  | inr later ↦ let (parts, e) = split-before s sep in (parts, ground arith)
]

pub has_prefix_iff : (s p : Bytes) → (has_prefix s p ≡ true) ↔ ((rest : Bytes) × (s ≡ p ++ rest))
unfolding has_prefix
has_prefix_iff s [] = (λ _. (s, refl), λ _. refl)
has_prefix_iff [] (c ∷ p) = (λ h. absurd (cc), λ (rest, e). absurd (cc))
has_prefix_iff (b ∷ s) (c ∷ p) =
    let (to, from) = has_prefix_iff s p in
    (
      λ h. let (rest, e) = to (ground arith) in (rest, ground arith),
      λ (rest, e). let tails : s ≡ p ++ rest = cc in ground (arith, from (rest, tails), e),
    )

-- The byte does not occur in the string.
abbrev pub Lacks : ℕ → Bytes → Type 0
Lacks c [] = Unit {0}
Lacks c (b ∷ s) = (b ≢ c) × Lacks c s

pub split-Lacks : (c : ℕ) (s : Bytes) → Lacks c s → split s (c ∷ []) ≡ s ∷ []
unfolding split
split-Lacks c [] h = refl
split-Lacks c (b ∷ s) (n, h) = ground (arith, split-Lacks c s h)

pub split-first :
    (c : ℕ) (s t : Bytes) → Lacks c s → split (s ++ c ∷ t) (c ∷ []) ≡ s ∷ split t (c ∷ [])
unfolding split
split-first c [] t h = ground arith
split-first c (b ∷ s) t (n, h) = ground (arith, split-first c s t h)

-- A string that does not lack a byte has a first occurrence of it.
pub first_occurrence :
    (c : ℕ) (s : Bytes) → Lacks c s ⊎ ((a : Bytes) × (t : Bytes) × (s ≡ a ++ c ∷ t) × Lacks c a)
first_occurrence c [] = inl tt
first_occurrence c (b ∷ s) = elim (ℕ_discrete b c) [
  | yes same ↦ inr ([], s, ap (λ x. x ∷ s) same, tt)
  | no other ↦ elim (first_occurrence c s) [
    | inl lacks ↦ inl (other, lacks)
    | inr (a, t, e, h) ↦ inr (b ∷ a, t, ap (λ x. b ∷ x) e, (other, h))
  ]
]
