-- ===== src/Prelude/Search.antt =====
-- sort.Search: the least index below n at which a test holds, by halving; n if there is none.
use Prim.Native.Nat.{ℕ, zero, suc, ◌+◌, ◌-◌, ◌/◌, ◌≤◌, ◌<◌}
use mathlib.Core.Path.{◌≡◌}
use mathlib.Core.Bool.{Bool, true, false}
use mathlib.Core.Logic.{inl, inr}
use native.Mathlib.Omega.{arith}
use native.Mathlib.Decide.{dec_lt}
use droute.Prelude.Tests.{ltb, if◌then◌else◌, Bool-cases}

module _ (f : ℕ → Bool) where
  -- `fuel` bounds the rounds; each one makes j - i smaller.
  search_loop : ℕ → ℕ → ℕ → ℕ
  search_loop zero i j = i
  search_loop (suc fuel) i j =
      let h = (i + j) / 2 in
      let right = search_loop fuel (h + 1) j in
      let left = search_loop fuel i h in if ltb i j then (if f h then left else right) else i

  unfoldable pub search_index : ℕ → ℕ
  unfolding search_loop
  search_index n = search_loop (suc n) 0 n

  pub record IsLeast (n r : ℕ) : Type 0 where
    pub bound : r ≤ n
    pub below : (k : ℕ) → k < r → f k ≡ false
    pub above : (k : ℕ) → r ≤ k → k < n → f k ≡ true

  -- Once the test holds it holds up to n.
  abbrev pub IsMonotone : ℕ → Type 0
  IsMonotone n = (a b : ℕ) → a ≤ b → b < n → f a ≡ true → f b ≡ true

  search_loop-IsLeast :
      (fuel i j n : ℕ)
      → IsMonotone n
      → j - i < fuel
      → i ≤ j
      → j ≤ n
      → ((k : ℕ) → k < i → f k ≡ false)
      → ((k : ℕ) → j ≤ k → k < n → f k ≡ true)
      → IsLeast n (search_loop fuel i j)
  unfolding search_loop
  search_loop-IsLeast zero i j n mono h ij jn below above = absurd (omega arith)
  search_loop-IsLeast (suc fuel) i j n mono h ij jn below above =
      let m = (i + j) / 2 in
      elim (Bool-cases (ltb i j)) [
        | inr done ↦ rw done (record {
          bound = omega arith;
          below = below;
          above = λ k ik kn. above k (ground arith) kn;
        })
        | inl more ↦ elim (Bool-cases (f m)) [
          | inl hit ↦
              rw (more, hit)
                (search_loop-IsLeast fuel i m n mono (ground arith) (ground arith) (ground arith)
                  below (λ k mk kn. mono m k mk kn hit))
          | inr miss ↦
              rw (more, miss)
                (search_loop-IsLeast fuel (m + 1) j n mono (ground arith) (ground arith) jn
                  (λ k km. elim (Bool-cases (f k)) [
                    | inl early ↦
                        let late = mono k m (omega arith) (ground arith) early in absurd (cc)
                    | inr e ↦ e
                  ])
                  above)
        ]
      ]

  -- On a test that, once it holds, holds up to n, the search finds the least index where it holds.
  pub search_index-IsLeast : (n : ℕ) → IsMonotone n → IsLeast n (search_index n)
  unfolding search_index
  search_index-IsLeast n mono =
      search_loop-IsLeast (suc n) 0 n n mono (omega arith) (omega arith) (omega arith)
        (λ k h. absurd (omega arith)) (λ k h g. absurd (omega arith))

  pub IsLeast-unique : (n r s : ℕ) → IsLeast n r → IsLeast n s → r ≡ s
  IsLeast-unique n r s a b = elim (dec_lt r s) [
    | yes p ↦ let e = a.above r (omega arith) (omega arith) in let g = b.below r p in absurd (cc)
    | no p ↦ elim (dec_lt s r) [
      | yes q ↦ let e = b.above s (omega arith) (omega arith) in let g = a.below s q in absurd (cc)
      | no q ↦ omega arith
    ]
  ]
