-- ===== src/Sessions/Bolt/Stamp/Inverting.antt =====
-- The swaps of invertBytes reverse the bytes.
use mathlib.Core.List.{reverse, reverse-cons, reverse-append, append_assoc, append-nil}
use droute.Prelude.{
  ℕ, zero, suc, ◌+◌, ◌-◌, ◌/◌, ◌<◌, ◌≡◌, refl, sym, ap, ◌∙◌, [], ◌∷◌, ◌++◌, Bytes, length, get_or,
  set, length-append, arith,
}
use droute.Sessions.Bolt.Stamp.{swap, invert_loop, invert_bytes}

-- A list with at least two items has a first, a last, and some between.
both_ends : (a : ℕ) (mid : Bytes) → 0 < length mid → (m : Bytes) × (b : ℕ) × (mid ≡ m ++ b ∷ [])
both_ends a [] h = absurd (omega arith)
both_ends a (b ∷ []) h = ([], b, refl)
both_ends a (b ∷ c ∷ mid) h =
    let (m, d, e) = both_ends b (c ∷ mid) (omega arith) in (b ∷ m, d, ap (◌∷◌ b) e)

get_or-append :
    (pre post : Bytes) (a : ℕ) (n : ℕ) → n ≡ length pre → get_or (pre ++ a ∷ post) n 0 ≡ a
get_or-append [] post a n e = rw e refl
get_or-append (x ∷ pre) post a zero e = absurd (omega arith)
get_or-append (x ∷ pre) post a (suc n) e = get_or-append pre post a n (omega arith)

set-append :
    (pre post : Bytes) (a b : ℕ) (n : ℕ)
    → n ≡ length pre
    → set (pre ++ a ∷ post) n b ≡ pre ++ b ∷ post
set-append [] post a b n e = rw e refl
set-append (x ∷ pre) post a b zero e = absurd (omega arith)
set-append (x ∷ pre) post a b (suc n) e = ap (◌∷◌ x) (set-append pre post a b n (omega arith))

-- One swap exchanges the ends of what is left.
swap_ends :
    (pre m post : Bytes) (a b i j : ℕ)
    → i ≡ length pre
    → j ≡ length pre + suc (length m)
    → swap i j (pre ++ a ∷ (m ++ b ∷ post)) ≡ pre ++ b ∷ (m ++ a ∷ post)
swap_ends pre m post a b i j hi hj =
    let far : j ≡ length (pre ++ a ∷ m) = omega (arith, length-append pre (a ∷ m)) in
    let far' : j ≡ length (pre ++ b ∷ m) = omega (arith, length-append pre (b ∷ m)) in
    let at_i = get_or-append pre (m ++ b ∷ post) a i hi in
    let at_j : get_or (pre ++ a ∷ (m ++ b ∷ post)) j 0 ≡ b =
      ap (λ (l : Bytes). get_or l j 0) (sym (append_assoc pre (a ∷ m) (b ∷ post)))
      ∙ get_or-append (pre ++ a ∷ m) post b j far in
    let first = set-append pre (m ++ b ∷ post) a b i hi in
    let second : set (pre ++ b ∷ (m ++ b ∷ post)) j a ≡ pre ++ b ∷ (m ++ a ∷ post) =
      ap (λ (l : Bytes). set l j a) (sym (append_assoc pre (b ∷ m) (b ∷ post)))
      ∙ set-append (pre ++ b ∷ m) post b a j far'
      ∙ append_assoc pre (b ∷ m) (a ∷ post) in
    rw (at_j, at_i, first) second

reverse_ends :
    (a b : ℕ) (m post : Bytes) → reverse (a ∷ (m ++ b ∷ [])) ++ post ≡ b ∷ (reverse m ++ a ∷ post)
reverse_ends a b m post =
    rw (reverse-cons a (m ++ b ∷ []), reverse-append m (b ∷ [])) (simp append_assoc)

invert_loop_lem :
    (n i : ℕ) (pre mid post : Bytes)
    → length pre ≡ length post
    → length mid / 2 ≡ n
    → i ≡ length pre
    → invert_loop n i (pre ++ (mid ++ post)) ≡ pre ++ (reverse mid ++ post)
unfolding invert_loop
invert_loop_lem zero i pre [] post same half hi = refl
invert_loop_lem zero i pre (a ∷ []) post same half hi = refl
invert_loop_lem zero i pre (a ∷ b ∷ mid) post same half hi = absurd (omega arith)
invert_loop_lem (suc n) i pre [] post same half hi = absurd (omega arith)
invert_loop_lem (suc n) i pre (a ∷ mid) post same half hi =
    let (m, b, e) = both_ends a mid (omega arith) in
    let long : length mid ≡ length m + 1 = ap length e ∙ length-append m (b ∷ []) in
    let shape : pre ++ ((a ∷ mid) ++ post) ≡ pre ++ a ∷ (m ++ b ∷ post) =
      ap (λ (l : Bytes). pre ++ a ∷ l)
        (ap (λ (l : Bytes). l ++ post) e ∙ append_assoc m (b ∷ []) post) in
    let last : length (pre ++ a ∷ (m ++ b ∷ post)) - i - 1 ≡ length pre + suc (length m) =
      omega (arith, length-append pre (a ∷ (m ++ b ∷ post)), length-append m (b ∷ post)) in
    let swapped = swap_ends pre m post a b i _ hi last in
    let rest =
      invert_loop_lem n (i + 1) (pre ++ b ∷ []) m (a ∷ post)
        (omega (arith, length-append pre (b ∷ []))) (omega arith)
        (omega (arith, length-append pre (b ∷ []))) in
    rw (shape, swapped)
      (ap (invert_loop n (i + 1)) (sym (append_assoc pre (b ∷ []) (m ++ a ∷ post)))
        ∙ rest
        ∙ append_assoc pre (b ∷ []) (reverse m ++ a ∷ post)
        ∙ ap (λ (l : Bytes). pre ++ l)
            (sym (ap (λ (l : Bytes). reverse (a ∷ l) ++ post) e ∙ reverse_ends a b m post)))

-- invertBytes is the reversal of the list.
pub invert_bytes-eq-reverse : (buf : Bytes) → invert_bytes buf ≡ reverse buf
unfolding invert_bytes
invert_bytes-eq-reverse buf =
    ap (invert_loop (length buf / 2) 0) (sym (append-nil buf))
    ∙ invert_loop_lem (length buf / 2) 0 [] buf [] refl refl refl
    ∙ append-nil (reverse buf)
