-- ===== src/Middlewares/UserRequest/Zones.antt =====
-- The time zones of request.go.
use droute.Prelude.{
  ℕ, zero, suc, ◌+◌, ◌-◌, ◌*◌, ◌/◌, ◌%◌, ◌≤◌, ◌<◌, ◌≡◌, ◌⊎◌, refl, ap, ◌∙◌, true, false, ◌&&◌, some,
  ◌∷◌, ◌++◌, Bytes, codes, arith, Bool-cases, inl, inr, leb, ltb, ◌==◌, pos, negsuc, neg_of,
  read_digits, atoi, half_word, full_word, of_word, times_minus,
}
use droute.Middlewares.UserRequest.{
  Parsers, minutes_text, fixed_zone, fixed, utc, zone_of, time_zone_js_2utc,
}

-- What the zone's name says behind "UTC-" or "UTC+"
abbrev pub name_of : Parsers → ℕ → Bytes
name_of p n = p.digits (pos (n / 60)) ++ minutes_text p (p.odd_minutes (pos n))

of_word-small : (n w : ℕ) → n % full_word ≡ w → w < half_word → of_word n ≡ pos w
unfolding of_word
of_word-small n w e lt = rw e (ground arith)

of_word-large :
    (n k : ℕ) → n % full_word ≡ full_word - suc k → suc k ≤ half_word → of_word n ≡ negsuc k
unfolding of_word
of_word-large n k e le = rw e (ground arith)

remainder : (n k r : ℕ) → n ≡ k * full_word + r → r < full_word → n % full_word ≡ r
remainder n k r e lt = omega arith

seconds_west : (n : ℕ) → suc n * 60 ≤ half_word → times_minus 60 (pos (suc n)) ≡ neg_of (suc n * 60)
unfolding times_minus
seconds_west n le =
    of_word-large (suc n * (full_word - 60)) (n * 60 + 59)
      (remainder (suc n * (full_word - 60)) n (full_word - suc (n * 60 + 59)) (omega arith)
        (omega arith))
      (omega arith)
    ∙ ap neg_of {x = suc (n * 60 + 59)} (omega arith)

made_positive : (n : ℕ) → suc n < half_word → times_minus 1 (negsuc n) ≡ pos (suc n)
unfolding times_minus
made_positive n lt =
    of_word-small ((full_word - 1 - n) * (full_word - 1)) (suc n)
      (remainder ((full_word - 1 - n) * (full_word - 1)) (full_word - 2 - n) (suc n) (omega arith)
        (omega arith))
      lt

-- the sign for a string with a minus: 0 is not below 0
abbrev minus_sign : ℕ → Bytes
minus_sign zero = codes "UTC-"
minus_sign (suc n) = codes "UTC+"

module _ (p : Parsers) where
  zone_west :
      (sign : Bytes) (n : ℕ)
      → 60 ≤ n
      → n * 60 ≤ half_word
      → fixed_zone p sign (pos n) (pos (n / 60)) ≡ fixed (sign ++ name_of p n) (neg_of (n * 60))
  zone_west sign zero large le = absurd (omega arith)
  zone_west sign (suc m) large le = go (suc m / 60) refl
    where
      go :
          (h : ℕ)
          → suc m / 60 ≡ h
          → fixed_zone p sign (pos (suc m)) (pos (suc m / 60))
            ≡ fixed (sign ++ name_of p (suc m)) (neg_of (suc m * 60))
      go zero e = absurd (omega arith)
      go (suc k) e = rw (e, seconds_west m le) refl

  zone_utc : (sign : Bytes) (n : ℕ) → n < 60 → fixed_zone p sign (pos n) (pos (n / 60)) ≡ utc
  zone_utc sign n small = ap (λ h. fixed_zone p sign (pos n) (pos h)) (small_quotient n small)
    where
      small_quotient : (n : ℕ) → n < 60 → n / 60 ≡ 0
      small_quotient n lt = omega arith

  plain_zone :
      (c : ℕ) (s : Bytes) (n : ℕ)
      → (leb b'0' c && leb c b'9') ≡ true
      → read_digits 0 (c ∷ s) ≡ some n
      → n < half_word
      → time_zone_js_2utc p (c ∷ s) ≡ some (fixed_zone p (codes "UTC-") (pos n) (pos (n / 60)))
  unfolding time_zone_js_2utc atoi
  plain_zone c s n digit e lt =
      let minus : (c == b'-') ≡ false = ground arith in
      let plus : (c == b'+') ≡ false = ground arith in
      let inside : ltb n half_word ≡ true = ground arith in
      rw (time_zone_js_2utc, atoi, minus, plus, e, inside) refl

  signed_zone :
      (n : ℕ)
      → n < half_word
      → zone_of p (neg_of n) ≡ fixed_zone p (minus_sign n) (pos n) (pos (n / 60))
  unfolding zone_of
  signed_zone zero lt = refl
  signed_zone (suc n) lt = rw (zone_of, made_positive n lt) refl

  minus_zone :
      (c : ℕ) (s : Bytes) (n : ℕ)
      → read_digits 0 (c ∷ s) ≡ some n
      → n < half_word
      → time_zone_js_2utc p (b'-' ∷ c ∷ s)
        ≡ some (fixed_zone p (minus_sign n) (pos n) (pos (n / 60)))
  unfolding time_zone_js_2utc atoi
  minus_zone c s n e lt =
      let inside : leb n half_word ≡ true = ground arith in
      rw (time_zone_js_2utc, atoi, e, inside) (ap some (signed_zone n lt))

  east_name :
      (n : ℕ)
      → 60 ≤ n
      → fixed (minus_sign n ++ name_of p n) (neg_of (n * 60))
        ≡ fixed (codes "UTC+" ++ name_of p n) (neg_of (n * 60))
  east_name zero le = absurd (omega arith)
  east_name (suc n) le = refl

  -- Let a string begin with a digit, and stand for the number n of minutes, with 60 * n at most 2 ^ 63. For
  -- fewer than 60 minutes, the string and the string with a minus in front, JavaScript's offsets for
  -- zones west and east of UTC, are both given UTC. For others the two zones have names that begin with
  -- "UTC-" and "UTC+", and go on alike, but both lie 60 * n seconds west of UTC.
  pub time_zone_sign :
      (c : ℕ) (s : Bytes) (n : ℕ)
      → (leb b'0' c && leb c b'9') ≡ true
      → read_digits 0 (c ∷ s) ≡ some n
      → n * 60 ≤ half_word
      → ((n < 60)
          × (time_zone_js_2utc p (c ∷ s) ≡ some utc)
          × (time_zone_js_2utc p (b'-' ∷ c ∷ s) ≡ some utc))
        ⊎ ((60 ≤ n)
            × (time_zone_js_2utc p (c ∷ s)
                ≡ some (fixed (codes "UTC-" ++ name_of p n) (neg_of (n * 60))))
            × (time_zone_js_2utc p (b'-' ∷ c ∷ s)
                ≡ some (fixed (codes "UTC+" ++ name_of p n) (neg_of (n * 60)))))
  time_zone_sign c s n digit e le =
      let plain = plain_zone c s n digit e (omega arith) in
      let minus = minus_zone c s n e (omega arith) in
      elim (Bool-cases (ltb n 60)) [
        | inl small ↦ inl (
          ground arith,
          plain ∙ ap some (zone_utc (codes "UTC-") n (ground arith)),
          minus ∙ ap some (zone_utc (minus_sign n) n (ground arith)),
        )
        | inr large ↦
            let many : 60 ≤ n = ground arith in
            inr (
              many,
              plain ∙ ap some (zone_west (codes "UTC-") n many le),
              minus ∙ ap some (zone_west (minus_sign n) n many le ∙ east_name n many),
            )
      ]
