-- ===== src/Router/RoundRobin/Rotation.antt =====
-- Next serves the addresses of an entry in turn.
use droute.Prelude.{
  ℕ, zero, suc, ◌+◌, ◌-◌, ◌≤◌, ◌<◌, ◌≡◌, refl, ◌∙◌, sym, ap, inl, inr, some, List, [], ◌∷◌, ◌++◌,
  Bytes, bytes_discrete, find, arith, leb, if◌then◌else◌, Option-cases, Bool-cases, length, take,
  drop, get_or, length-drop,
}
use mathlib.Core.List.{append-nil}
use droute.Router.RoundRobin.{Ips, Paths, Table, norm_path, next_ip, find_path, next}
use droute.Router.RoundRobin.Table.{entry}
use droute.Router.RoundRobin.Choice.{entry-insert_found}

-- The position that the next call reads.
abbrev pub start : Ips → ℕ
start p = if leb (length p.ips) p.actual then 0 else p.actual

serve : ℕ → Ips → Ips × List Bytes
serve zero p = (p, [])
serve (suc n) p = let rest = serve n (next_ip p).0 in (rest.0, (next_ip p).1 ∷ rest.1)

drop-eq-cons :
    (a : ℕ) (xs : List Bytes) → a < length xs → drop a xs ≡ get_or xs a [] ∷ drop (suc a) xs
drop-eq-cons a [] h = absurd (omega arith)
drop-eq-cons zero (x ∷ xs) h = refl
drop-eq-cons (suc a) (x ∷ xs) h = drop-eq-cons a xs (omega arith)

take_of_length : (n : ℕ) (xs : List Bytes) → length xs ≤ n → take n xs ≡ xs
take_of_length zero [] h = refl
take_of_length zero (x ∷ xs) h = absurd (omega arith)
take_of_length (suc n) [] h = refl
take_of_length (suc n) (x ∷ xs) h = ap (◌∷◌ x) (take_of_length n xs (omega arith))

serve_segment :
    (k a b : ℕ) (xs : List Bytes)
    → a + k ≡ b
    → b ≤ length xs
    → serve k (record { ips = xs; actual = a })
      ≡ (record { ips = xs; actual = b }, take k (drop a xs))
unfolding serve next_ip
serve_segment zero a b xs e h = ground arith
serve_segment (suc k) a b xs e h = ground (arith, serve_segment k (a + 1) b xs, drop-eq-cons a xs)

serve_wraps :
    (n : ℕ) (p : Ips)
    → 0 < length p.ips
    → length p.ips ≤ p.actual
    → (serve n p).1 ≡ (serve n (record p { actual = 0 })).1
unfolding serve next_ip
serve_wraps zero p some_ips h = refl
serve_wraps (suc n) p some_ips h =
    let wrapped : next_ip p ≡ next_ip (record p { actual = 0 }) = ground arith in cc wrapped

serve-add :
    (n i j : ℕ) (p : Ips) → n ≡ i + j → (serve n p).1 ≡ (serve i p).1 ++ (serve j (serve i p).0).1
unfolding serve
serve-add n zero j p e = let same : n ≡ j = omega arith in rw same refl
serve-add zero (suc i) j p e = absurd (omega arith)
serve-add (suc n) (suc i) j p e =
    ap (◌∷◌ (next_ip p).1) (serve-add n i j (next_ip p).0 (omega arith))

serve_round :
    (p : Ips)
    → 0 < length p.ips
    → (serve (length p.ips) p).1 ≡ drop (start p) p.ips ++ take (start p) p.ips
serve_round p h = elim (Bool-cases (leb (length xs) a)) [
  | inl over ↦ rw over (
      serve_wraps (length xs) p h (ground arith)
      ∙ ap (λ (r : Ips × List Bytes). r.1)
          (serve_segment (length xs) 0 (length xs) xs (omega arith) (omega arith))
      ∙ take_of_length (length xs) xs (omega arith)
      ∙ sym (append-nil xs))
  | inr inside ↦
      let first = serve_segment (length xs - a) a (length xs) xs (ground arith) (omega arith) in
      let second = serve_segment a 0 a xs (omega arith) (ground arith) in
      rw inside (
        serve-add (length xs) (length xs - a) a p (ground arith)
        ∙ rw (first, take_of_length (length xs - a) (drop a xs) (omega (arith, length-drop a xs)))
            (ap (◌++◌ (drop a xs)) (
              serve_wraps a (record { ips = xs; actual = length xs }) h (omega arith)
              ∙ ap (λ (r : Ips × List Bytes). r.1) second)))
]
  where
    open p use {ips as xs, actual as a}

module _ (visit : Paths → Paths) where
  -- n calls of Next, and what they answer
  pub next_times : ℕ → Bytes → Bytes → Table → Table × List Bytes
  next_times zero method path rr = (rr, [])
  next_times (suc n) method path rr =
      let rest = next_times n method path (next visit method path rr).0 in
      (rest.0, (next visit method path rr).1 ∷ rest.1)

  next_exact :
      (method path : Bytes) (p : Ips) (rr : Table)
      → entry method (norm_path path) rr ≡ some p
      → ((next visit method path rr).1 ≡ (next_ip p).1)
        × (entry method (norm_path path) (next visit method path rr).0 ≡ some (next_ip p).0)
  unfolding next find_path entry
  next_exact method path p rr h = elim (Option-cases (find bytes_discrete method rr)) [
    | inl absent ↦ absurd (ground arith)
    | inr (m, found) ↦
        let here : find bytes_discrete (norm_path path) m ≡ some p = ground arith in
        (
          rw (found, next, here, find_path) refl,
          rw (found, next, here, find_path)
              (entry-insert_found method (norm_path path) method (norm_path path) (next_ip p).0 m rr
                  found
                ∙ ground arith),
        )
  ]

  next_times-serve :
      (n : ℕ) (method path : Bytes) (p : Ips) (rr : Table)
      → entry method (norm_path path) rr ≡ some p
      → (next_times n method path rr).1 ≡ (serve n p).1
  unfolding serve next_times
  next_times-serve zero method path p rr h = refl
  next_times-serve (suc n) method path p rr h =
      let (served, held) = next_exact method path p rr h in
      cc (served, next_times-serve n method path (next_ip p).0 (next visit method path rr).0 held)

  -- Let a path be stored itself, with at least one address. As many calls of Next for it as it has addresses give each position of its list once: from the
  -- entry's position to the end, and then from the front.
  pub next_round :
      (method path : Bytes) (p : Ips) (rr : Table)
      → entry method (norm_path path) rr ≡ some p
      → 0 < length p.ips
      → (next_times (length p.ips) method path rr).1 ≡ drop (start p) p.ips ++ take (start p) p.ips
  next_round method path p rr held h =
      next_times-serve (length p.ips) method path p rr held ∙ serve_round p h
