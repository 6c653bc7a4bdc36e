-- ===== src/Router/Match/Named.antt =====
-- What matchNamedParam accepts on an ASCII path.
use mathlib.Core.List.{append_assoc}
use droute.Prelude.{
  ℕ, ◌≤◌, ◌≡◌, refl, sym, ap, ◌∙◌, ◌↔◌, ◌≢◌, ◌⊎◌, inl, inr, Bool, true, false, [], ◌∷◌, ◌++◌, Bytes,
  ◌+◌, ◌==◌, if◌then◌else◌, length, length-append, get_or, IsAscii, enumerate, runes_from,
  runes_from_of_IsAscii, ℕ_discrete, ◌<◌, arith,
}
use droute.Router.Match.{match_named_param, named_loop, eqb}

-- The two strings are equal, or where they first differ the second one has a colon.
abbrev pub IsNamedMatch : Bytes → Bytes → Type 0
IsNamedMatch path k =
    (path ≡ k)
    ⊎ ((pre : Bytes) × (p : ℕ) × (s : Bytes) × (t : Bytes) × (path ≡ pre ++ p ∷ s)
        × (k ≡ pre ++ b':' ∷ t)
        × (p ≢ b':'))

agree : Bytes → Bytes → Bool
agree [] [] = true
agree [] (c ∷ t) = false
agree (p ∷ s) [] = false
agree (p ∷ s) (c ∷ t) = if p == c then agree s t else c == b':'

get_or-append : (pre t : Bytes) (c : ℕ) → get_or (pre ++ c ∷ t) (length pre) 0 ≡ c
get_or-append [] t c = refl
get_or-append (x ∷ pre) t c = get_or-append pre t c

eqb_self : (s : Bytes) → eqb s s ≡ true
unfolding eqb
eqb_self s = ground arith

eqb_of_length : (s t : Bytes) → length s ≢ length t → eqb s t ≡ false
unfolding eqb
eqb_of_length s t h = ground (arith, λ (e : s ≡ t). h (ap length e))

named_loop-past :
    (path k : Bytes) (i : ℕ) (s : Bytes)
    → length k ≤ i
    → named_loop path k (enumerate i s) ≡ eqb path k
unfolding named_loop
named_loop-past path k i [] h = refl
named_loop-past path k i (p ∷ s) h = ground (arith, named_loop-past path k (i + 1) s)

named_loop-agree :
    (i : ℕ) (pre s t path k : Bytes)
    → i ≡ length pre
    → path ≡ pre ++ s
    → k ≡ pre ++ t
    → named_loop path k (enumerate i s) ≡ agree s t
unfolding named_loop agree
named_loop-agree i pre [] [] path k l e f = rw (e, f) (eqb_self (pre ++ []))
named_loop-agree i pre [] (c ∷ t) path k l e f = eqb_of_length path k (λ q.
    omega (arith, q, ap length e, ap length f, length-append pre (c ∷ t), length-append pre []))
named_loop-agree i pre (p ∷ s) [] path k l e f =
    named_loop-past path k i (p ∷ s) (omega (arith, ap length f, length-append pre []))
    ∙ eqb_of_length path k (λ q.
      omega (arith, q, ap length e, ap length f, length-append pre (p ∷ s), length-append pre []))
named_loop-agree i pre (p ∷ s) (c ∷ t) path k l e f =
    let here : get_or k i 0 ≡ c = rw (f, l) (get_or-append pre t c) in
    let inside : i < length k = omega (arith, ap length f, length-append pre (c ∷ t)) in
    let further = λ (q : p ≡ c).
      named_loop-agree (i + 1) (pre ++ p ∷ []) s t path k
        (omega (arith, length-append pre (p ∷ []))) (e ∙ sym (append_assoc pre (p ∷ []) s))
        (f ∙ ap (λ (x : ℕ). pre ++ x ∷ t) (sym q) ∙ sym (append_assoc pre (p ∷ []) t)) in
    ground (arith, here, inside, further)

module _ (b : ℕ) {s t : Bytes} where
  IsNamedMatch-cons : IsNamedMatch s t → IsNamedMatch (b ∷ s) (b ∷ t)
  IsNamedMatch-cons (inl e) = inl (ap (◌∷◌ b) e)
  IsNamedMatch-cons (inr (pre, p, s', t', e, f, n)) =
      inr (b ∷ pre, p, s', t', ap (◌∷◌ b) e, ap (◌∷◌ b) f, n)

agree_sound : (s t : Bytes) → agree s t ≡ true → IsNamedMatch s t
unfolding agree
agree_sound [] [] h = inl refl
agree_sound [] (c ∷ t) h = cc
agree_sound (p ∷ s) [] h = cc
agree_sound (p ∷ s) (c ∷ t) h = elim (ℕ_discrete p c) [
  | yes e ↦ rw e (IsNamedMatch-cons c (agree_sound s t (ground arith)))
  | no n ↦
      let colon : c ≡ b':' = ground arith in
      inr ([], p, s, t, refl, ap (λ (x : ℕ). x ∷ t) colon, λ q. n (q ∙ sym colon))
]

agree_self : (s : Bytes) → agree s s ≡ true
unfolding agree
agree_self [] = refl
agree_self (c ∷ s) = ground (arith, agree_self s)

agree-append : (pre s t : Bytes) (p : ℕ) → p ≢ b':' → agree (pre ++ p ∷ s) (pre ++ b':' ∷ t) ≡ true
unfolding agree
agree-append [] s t p n = ground arith
agree-append (x ∷ pre) s t p n = ground (arith, agree-append pre s t p n)

agree_complete : (s t : Bytes) → IsNamedMatch s t → agree s t ≡ true
agree_complete s t (inl e) = rw e (agree_self t)
agree_complete s t (inr (pre, p, s', t', e, f, n)) = rw (e, f) (agree-append pre s' t' p n)

-- On an ASCII path matchNamedParam accepts exactly the path that equals the pattern and is not
-- empty, and the one that first differs from the pattern at a colon of the pattern. What the
-- pattern says behind that colon plays no part.
pub match_named_param_iff :
    (path k : Bytes)
    → IsAscii path
    → (match_named_param path k ≡ true) ↔ ((path ≢ []) × (k ≢ []) × IsNamedMatch path k)
unfolding match_named_param eqb
match_named_param_iff path k h =
    let loop : named_loop path k (runes_from 0 0 path) ≡ agree path k =
      ap (named_loop path k) (runes_from_of_IsAscii 0 path h)
      ∙ named_loop-agree 0 [] path k path k refl refl refl in
    (
      λ e. (ground arith, ground arith, agree_sound path k (ground (arith, loop))),
      λ (p, q, m). ground (arith, loop, agree_complete path k m),
    )
