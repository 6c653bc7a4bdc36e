-- ===== src/Router/Retry.antt =====
-- router/retry.go.
use mathlib.Core.List.{append-nil, append_assoc}
use droute.Prelude.{
  ℕ, zero, suc, ◌≤◌, ◌<◌, ◌≡◌, refl, sym, ap, ◌∙◌, ◌⊎◌, inl, inr, Bool, true, false, ◌&&◌, none,
  some, [], ◌++◌, Bytes, ltb, leb, if◌then◌else◌, arith, Bool-cases, Option-cases,
}
use droute.Router.Exchange.{Exchange, HandlerFunc}

abbrev pub is_server_error : ℕ → Bool
is_server_error code = leb 500 code && ltb code 600

module _ {W : Type 0} where
  -- Retry. `times` below 1 runs nothing; a number of rounds below 0 is taken as 0.
  unfoldable pub retry : ℕ → HandlerFunc W → HandlerFunc W
  retry zero handler x = some x
  retry (suc times) handler x = elim (handler x) [
    | none ↦ none
    | some y ↦
        let again = retry times handler y in if is_server_error y.rw.code then again else some y
  ]

  -- `n` runs of the handler, each but the last with a status from 500 to 599.
  pub data Attempts (handler : HandlerFunc W) : ℕ → Exchange W → Exchange W → Type 0 where
    last : {x y : Exchange W} → handler x ≡ some y → Attempts handler 1 x y
    again :
        {n : ℕ} {x y z : Exchange W}
        → handler x ≡ some y
        → is_server_error y.rw.code ≡ true
        → Attempts handler n y z
        → Attempts handler (suc n) x z

  retry-first :
      (times : ℕ) (handler : HandlerFunc W) (x z : Exchange W)
      → retry (suc times) handler x ≡ some z
      → ((handler x ≡ some z) × (is_server_error z.rw.code ≡ false))
        ⊎ ((y : Exchange W) × (handler x ≡ some y)
            × (is_server_error y.rw.code ≡ true)
            × (retry times handler y ≡ some z))
  unfolding retry
  retry-first times handler x z e = elim (Option-cases (handler x)) [
    | inl panicked ↦ absurd (ground arith)
    | inr (y, ran) ↦ elim (Bool-cases (is_server_error y.rw.code)) [
      | inl failed ↦ inr (y, ran, failed, rw (ran, retry, failed) at e)
      | inr stopped ↦ let same : y ≡ z = ground arith in inl (rw (← same) ran, rw (← same) stopped)
    ]
  ]

  retry-zero : (handler : HandlerFunc W) (y z : Exchange W) → retry zero handler y ≡ some z → y ≡ z
  unfolding retry
  retry-zero handler y z e = cc

  retry-some :
      (times : ℕ) (handler : HandlerFunc W) (x : Exchange W)
      → ((y : Exchange W) → (z : Exchange W) × (handler y ≡ some z))
      → (z : Exchange W) × (retry times handler x ≡ some z)
  unfolding retry
  retry-some zero handler x runs = (x, refl)
  retry-some (suc times) handler x runs =
      let (y, ran) = runs x in
      let (z, rest) = retry-some times handler y runs in
      elim (Bool-cases (is_server_error y.rw.code)) [
        | inl failed ↦ (z, rw (ran, retry, failed) rest)
        | inr stopped ↦ (y, rw (ran, retry, stopped) refl)
      ]

  retry-eq-Attempts :
      (times : ℕ) (handler : HandlerFunc W) (x z : Exchange W)
      → 0 < times
      → retry times handler x ≡ some z
      → (n : ℕ) × (n ≤ times)
        × Attempts handler n x z
        × ((n ≡ times) ⊎ (is_server_error z.rw.code ≡ false))
  retry-eq-Attempts zero handler x z h e = absurd (omega arith)
  retry-eq-Attempts (suc zero) handler x z h e = elim (retry-first zero handler x z e) [
    | inl (ran, stopped) ↦ (1, omega arith, last ran, inr stopped)
    | inr (y, ran, failed, rest) ↦
        (1, omega arith, last (rw (← retry-zero handler y z rest) ran), inl refl)
  ]
  retry-eq-Attempts (suc (suc times)) handler x z h e =
      elim (retry-first (suc times) handler x z e) [
        | inl (ran, stopped) ↦ (1, omega arith, last ran, inr stopped)
        | inr (y, ran, failed, rest) ↦
            let (n, bound, attempts, stop) =
              retry-eq-Attempts (suc times) handler y z (omega arith) rest in
            (
              suc n,
              omega arith,
              again ran failed attempts,
              elim stop [ inl all ↦ inl (omega arith) | inr stopped ↦ inr stopped ],
            )
      ]

module _ {W : Type 0} where
  -- If the handler does not panic, Retry with at least one round returns, and its result is that of at least one and at most `times` runs of the handler, one after the other on the same response, where every run but the last gave a status from 500 to 599; and if there were fewer runs than `times`, the last one gave another status.
  pub retry-Attempts :
      (times : ℕ) (handler : HandlerFunc W) (x : Exchange W)
      → 0 < times
      → ((y : Exchange W) → (z : Exchange W) × (handler y ≡ some z))
      → (z : Exchange W) × (retry times handler x ≡ some z)
        × ((n : ℕ) × (n ≤ times)
            × Attempts handler n x z
            × ((n ≡ times) ⊎ (is_server_error z.rw.code ≡ false)))
  retry-Attempts times handler x pos runs =
      let (z, e) = retry-some times handler x runs in
      (z, e, retry-eq-Attempts times handler x z pos e)

abbrev pub repeat : ℕ → Bytes → Bytes
repeat zero text = []
repeat (suc n) text = text ++ repeat n text

-- If every run of the handler fails with a status from 500 to 599 and appends the same text to the
-- body, Retry sends that text once for each round: nothing is reset between two attempts.
pub retry-repeat :
    {W : Type 0} (times : ℕ) (handler : HandlerFunc W) (text : Bytes)
    → ((x : Exchange W)
        → (y : Exchange W) × (handler x ≡ some y)
          × (is_server_error y.rw.code ≡ true)
          × (y.rw.buffer ≡ x.rw.buffer ++ text))
    → (x : Exchange W)
    → (z : Exchange W) × (retry times handler x ≡ some z)
      × (z.rw.buffer ≡ x.rw.buffer ++ repeat times text)
unfolding retry
retry-repeat zero handler text fails x = (x, refl, sym (append-nil x.rw.buffer))
retry-repeat (suc times) handler text fails x =
    let (y, ran, failed, wrote) = fails x in
    let (z, rest, all) = retry-repeat times handler text fails y in
    (
      z,
      rw (ran, retry, failed) rest,
      all
          ∙ ap (λ (b : Bytes). b ++ repeat times text) wrote
          ∙ append_assoc x.rw.buffer text (repeat times text),
    )
