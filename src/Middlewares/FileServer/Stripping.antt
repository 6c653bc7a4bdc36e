-- ===== src/Middlewares/FileServer/Stripping.antt =====
-- What StripPrefix leaves of a path.
use droute.Prelude.{
  ℕ, ◌≡◌, ◌↔◌, refl, ap, ◌∙◌, inl, inr, true, some, [], ◌∷◌, ◌++◌, Bytes, length, drop, trim_prefix,
  has_prefix, has_prefix_iff, length-append, ltb, arith, Bool-cases,
}
use droute.Middlewares.FileServer.{stripped}

drop-append : (p rest : Bytes) → drop (length p) (p ++ rest) ≡ rest
drop-append [] rest = refl
drop-append (b ∷ p) rest = drop-append p rest

-- For a prefix that is not empty, a path is stripped to the rest exactly when it is the prefix and the rest.
pub stripped_iff :
    (c : ℕ) (prefix path rest : Bytes)
    → (stripped (c ∷ prefix) path ≡ some rest) ↔ (path ≡ (c ∷ prefix) ++ rest)
unfolding stripped trim_prefix
stripped_iff c prefix path rest = (to, from)
  where
    from : path ≡ (c ∷ prefix) ++ rest → stripped (c ∷ prefix) path ≡ some rest
    from e =
        let held = (has_prefix_iff path (c ∷ prefix)).1 (rest, e) in
        let left : drop (length (c ∷ prefix)) path ≡ rest =
          ap (drop (length (c ∷ prefix))) e ∙ drop-append (c ∷ prefix) rest in
        let shorter : ltb (length rest) (length path) ≡ true =
          ground (arith, e, length-append (c ∷ prefix) rest) in
        rw (stripped, trim_prefix, held, left, shorter) refl

    to : stripped (c ∷ prefix) path ≡ some rest → path ≡ (c ∷ prefix) ++ rest
    to h = elim (Bool-cases (has_prefix path (c ∷ prefix))) [
      | inr other ↦ absurd (ground arith)
      | inl held ↦
          let (left, e) = (has_prefix_iff path (c ∷ prefix)).0 held in
          let p : drop (length (c ∷ prefix)) path ≡ left =
            ap (drop (length (c ∷ prefix))) e ∙ drop-append (c ∷ prefix) left in
          let same : left ≡ rest = ground arith in e ∙ ap (λ (x : Bytes). (c ∷ prefix) ++ x) same
    ]
