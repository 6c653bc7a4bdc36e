-- ===== src/Sessions/Bolt/Store/Transactions.antt =====
-- What a transaction of the store that succeeds has done to the three buckets of keys.
use droute.Prelude.{
  ℕ, ◌≡◌, ap, refl, sym, ◌∙◌, false, Option, none, some, [], Bytes, bytes_discrete, ite, arith, inl,
  inr, Bool-cases, Option-cases,
}
use droute.Sessions.Bolt.Stamp.{stamp, read_stamp}
use droute.Sessions.Bolt.Database.{
  Bolt, BucketName, uuid_ts, ts_uuid, in_use, bucket_discrete, Indexes,
}
use droute.Sessions.Bolt.Store.{
  BoltError, Outcome, ok, err, checked, ignored, before_time, finish, update, ◌>>=◌, open_tx,
  new_tx, renew_tx, restore_tx, delete_tx, return_tx,
}

pub checked_ok : {A : Type 0} {a : A} (o : Option A) → checked o ≡ ok a → o ≡ some a
checked_ok none e = ground arith
checked_ok (some b) e = cc

pub checked-eq-ok :
    {A B : Type 0} {b : B} (o : Option A) (f : A → Outcome B)
    → (checked o >>= f) ≡ ok b
    → (a : A) × (o ≡ some a) × (f a ≡ ok b)
checked-eq-ok none f e = absurd (cc)
checked-eq-ok (some a) f e = (a, refl, e)

module _ {D : Type 0} (bolt : Bolt D) where
  open bolt use {get, commit}

  -- What a predicate needs for a transaction to keep it: its body keeps it, and so does the commit.
  pub update-keeps :
      (Q : D → Type 0) (f : D → Outcome D) (d : D)
      → ((d' : D) → f d ≡ ok d' → Q d')
      → ((a b : D) → commit a ≡ some b → Q a → Q b)
      → Q d
      → Q (update bolt f d).0
  unfolding update
  update-keeps Q f d body kept q = go (f d) refl
    where
      go : (o : Outcome D) → f d ≡ o → Q (finish bolt d o).0
      go (err e) h = q
      go (ok d') h = elim (Option-cases (commit d')) [
        | inl lost ↦ rw (lost, finish) q
        | inr (b, done) ↦ rw (done, finish) (kept d' b done (body d' h))
      ]

  pub update_err :
      (f : D → Outcome D) (d : D) (e : BoltError) → f d ≡ err e → update bolt f d ≡ (d, err e)
  unfolding update
  update_err f d e h = ap (finish bolt d) h

  pub update_ok :
      (f : D → Outcome D) (d e : D)
      → update bolt f d ≡ (e, ok tt)
      → (d' : D) × (f d ≡ ok d') × (commit d' ≡ some e)
  unfolding update
  update_ok f d e h = go (f d) refl h
    where
      go :
          (o : Outcome D)
          → f d ≡ o
          → finish bolt d o ≡ (e, ok tt)
          → (d' : D) × (f d ≡ ok d') × (commit d' ≡ some e)
      go (err x) eq g = absurd (ground arith)
      go (ok d') eq g = elim (Option-cases (commit d')) [
        | inl lost ↦ absurd (ground arith)
        | inr (b, done) ↦ (d', eq, ground (arith, rw (done, finish) at g))
      ]

  -- The keys of the buckets uuid_ts, ts_uuid and in_use
  abbrev pub Writes :
      (Bytes → Option Bytes) → (Bytes → Option Bytes) → (Bytes → Option Bytes) → D → Type 0
  Writes a b c d =
      (j : Bytes) → (get uuid_ts j d ≡ a j) × (get ts_uuid j d ≡ b j) × (get in_use j d ≡ c j)

  module _ (laws : Indexes bolt) where
    open laws use {get-put, get-remove, get-make_root, get-make_child, get-drop_child, removed}

    pub new_tx-Writes :
        (u : Bytes) (date : ℕ) (d d' : D)
        → new_tx bolt u date d ≡ ok d'
        → (get uuid_ts u d ≡ none)
          × Writes
              (λ j. ite (bytes_discrete u j) (some (stamp date)) (get uuid_ts j d))
              (λ j. ite (bytes_discrete (stamp date) j) (some u) (get ts_uuid j d))
              (λ j. ite (bytes_discrete u j) (some []) (get in_use j d))
              d'
    unfolding new_tx bucket_discrete
    new_tx-Writes u date d d' e = elim (Option-cases (get uuid_ts u d)) [
      | inr (buf, there) ↦ absurd (ground arith)
      | inl absent ↦
          let (d1, h1, e1) =
            checked-eq-ok (bolt.put uuid_ts u (stamp date) d) _ (rw (absent, new_tx) at e) in
          let (d2, h2, e2) = checked-eq-ok (bolt.put ts_uuid (stamp date) u d1) _ e1 in
          let h3 = checked_ok (bolt.put in_use u [] d2) e2 in
          (
            absent,
            λ j. (
              ground (
                arith,
                get-put uuid_ts uuid_ts u j (stamp date) d d1 h1,
                get-put ts_uuid uuid_ts (stamp date) j u d1 d2 h2,
                get-put in_use uuid_ts u j [] d2 d' h3,
              ),
              ground (
                arith,
                get-put uuid_ts ts_uuid u j (stamp date) d d1 h1,
                get-put ts_uuid ts_uuid (stamp date) j u d1 d2 h2,
                get-put in_use ts_uuid u j [] d2 d' h3,
              ),
              ground (
                arith,
                get-put uuid_ts in_use u j (stamp date) d d1 h1,
                get-put ts_uuid in_use (stamp date) j u d1 d2 h2,
                get-put in_use in_use u j [] d2 d' h3,
              ),
            ),
          )
    ]

    pub restore_tx-Writes :
        (u : Bytes) (now date : ℕ) (d d' : D)
        → restore_tx bolt u now date d ≡ ok d'
        → (buf : Bytes) × (get uuid_ts u d ≡ some buf)
          × (before_time (read_stamp buf) now ≡ false)
          × Writes
              (λ j. ite (bytes_discrete u j) (some (stamp date)) (get uuid_ts j d))
              (λ j.
                ite
                  (bytes_discrete (stamp date) j)
                  (some u)
                  (ite (bytes_discrete buf j) none (get ts_uuid j d)))
              (λ j. ite (bytes_discrete u j) (some []) (get in_use j d))
              d'
    unfolding restore_tx renew_tx bucket_discrete
    restore_tx-Writes u now date d d' e =
        let (d1, h1, e1) = checked-eq-ok (bolt.put in_use u [] d) _ e in
        elim (Option-cases (get uuid_ts u d1)) [
          | inl absent ↦ absurd (ground arith)
          | inr (buf, there) ↦
              let (d2, h2, e2) = checked-eq-ok (bolt.remove ts_uuid buf d1) _ (rw there at e1) in
              elim (Bool-cases (before_time (read_stamp buf) now)) [
                | inl late ↦ absurd (ground arith)
                | inr early ↦
                    let (d3, h3, e3) =
                      checked-eq-ok (bolt.put uuid_ts u (stamp date) d2) _ (rw early at e2) in
                    let h4 = checked_ok (bolt.put ts_uuid (stamp date) u d3) e3 in
                    (
                      buf,
                      ground (arith, get-put in_use uuid_ts u u [] d d1 h1),
                      early,
                      λ j. (
                        ground (
                          arith,
                          get-put in_use uuid_ts u j [] d d1 h1,
                          get-remove ts_uuid uuid_ts buf j d1 d2 h2,
                          get-put uuid_ts uuid_ts u j (stamp date) d2 d3 h3,
                          get-put ts_uuid uuid_ts (stamp date) j u d3 d' h4,
                        ),
                        ground (
                          arith,
                          get-put in_use ts_uuid u j [] d d1 h1,
                          get-remove ts_uuid ts_uuid buf j d1 d2 h2,
                          get-put uuid_ts ts_uuid u j (stamp date) d2 d3 h3,
                          get-put ts_uuid ts_uuid (stamp date) j u d3 d' h4,
                        ),
                        ground (
                          arith,
                          get-put in_use in_use u j [] d d1 h1,
                          get-remove ts_uuid in_use buf j d1 d2 h2,
                          get-put uuid_ts in_use u j (stamp date) d2 d3 h3,
                          get-put ts_uuid in_use (stamp date) j u d3 d' h4,
                        ),
                      ),
                    )
              ]
        ]

    dropped_same :
        (u j : Bytes) (m : BucketName) (d : D)
        → get m j (ignored d (bolt.drop_child u d)) ≡ get m j d
    dropped_same u j m d = elim (Option-cases (bolt.drop_child u d)) [
      | inl lost ↦ rw lost refl
      | inr (d1, h) ↦ rw h (get-drop_child m u j d d1 h)
    ]

    pub delete_tx-Writes :
        (u : Bytes) (d d' : D)
        → delete_tx bolt u d ≡ ok d'
        → (buf : Bytes) × (get in_use u d ≡ none)
          × (get uuid_ts u d ≡ some buf)
          × Writes
              (λ j. ite (bytes_discrete u j) none (get uuid_ts j d))
              (λ j. ite (bytes_discrete buf j) none (get ts_uuid j d))
              (λ j. get in_use j d)
              d'
    unfolding delete_tx bucket_discrete
    delete_tx-Writes u d d' e = elim (Option-cases (get in_use u d)) [
      | inr (b, busy) ↦ absurd (ground arith)
      | inl idle ↦ elim (Bool-cases (bolt.has_root d)) [
        | inr none_made ↦ absurd (ground arith)
        | inl made ↦
            let d1 = ignored d (bolt.drop_child u d) in
            elim (Option-cases (get uuid_ts u d1)) [
              | inl absent ↦ absurd (ground arith)
              | inr (buf, there) ↦
                  let (d2, h2) = removed ts_uuid buf d1 in
                  let kept : ignored d1 (bolt.remove ts_uuid buf d1) ≡ d2 = rw h2 refl in
                  let h3 =
                    checked_ok (bolt.remove uuid_ts u d2)
                      (rw kept at (rw (idle, delete_tx, made, there) at e)) in
                  (
                    buf,
                    idle,
                    sym (dropped_same u u uuid_ts d) ∙ there,
                    λ j. (
                      ground (
                        arith,
                        dropped_same u j uuid_ts d,
                        get-remove ts_uuid uuid_ts buf j d1 d2 h2,
                        get-remove uuid_ts uuid_ts u j d2 d' h3,
                      ),
                      ground (
                        arith,
                        dropped_same u j ts_uuid d,
                        get-remove ts_uuid ts_uuid buf j d1 d2 h2,
                        get-remove uuid_ts ts_uuid u j d2 d' h3,
                      ),
                      ground (
                        arith,
                        dropped_same u j in_use d,
                        get-remove ts_uuid in_use buf j d1 d2 h2,
                        get-remove uuid_ts in_use u j d2 d' h3,
                      ),
                    ),
                  )
            ]
      ]
    ]

    pub return_tx-Writes :
        (u : Bytes) (d d' : D)
        → return_tx bolt u d ≡ ok d'
        → Writes
            (λ j. get uuid_ts j d)
            (λ j. get ts_uuid j d)
            (λ j. ite (bytes_discrete u j) none (get in_use j d))
            d'
    unfolding return_tx bucket_discrete
    return_tx-Writes u d d' e = elim (Option-cases (get uuid_ts u d)) [
      | inl absent ↦ absurd (ground arith)
      | inr (buf, there) ↦ elim (Option-cases (get in_use u d)) [
        | inl idle ↦ absurd (ground arith)
        | inr (b, busy) ↦
            let h = checked_ok (bolt.remove in_use u d) (rw (there, return_tx, busy) at e) in
            λ j. (
              get-remove in_use uuid_ts u j d d' h,
              get-remove in_use ts_uuid u j d d' h,
              get-remove in_use in_use u j d d' h,
            )
      ]
    ]

    pub open_tx-Writes :
        (u : Bytes) (d d' : D)
        → open_tx bolt u d ≡ ok d'
        → Writes (λ j. get uuid_ts j d) (λ j. get ts_uuid j d) (λ j. get in_use j d) d'
    unfolding open_tx
    open_tx-Writes u d d' e =
        let (d1, h1, e1) = checked-eq-ok (bolt.make_root d) _ e in
        let h2 = checked_ok (bolt.make_child u d1) e1 in
        let same = λ (m : BucketName) (j : Bytes).
          get-make_child m u j d1 d' h2 ∙ get-make_root m j d d1 h1 in
        λ j. (same uuid_ts j, same ts_uuid j, same in_use j)

    pub cancel-Writes :
        (u : Bytes) (d d' : D)
        → ◌≡◌ {A = Outcome D} (ok (ignored d (bolt.remove in_use u d))) (ok d')
        → Writes
            (λ j. get uuid_ts j d)
            (λ j. get ts_uuid j d)
            (λ j. ite (bytes_discrete u j) none (get in_use j d))
            d'
    unfolding bucket_discrete
    cancel-Writes u d d' e =
        let (d1, h) = removed in_use u d in
        let h2 : bolt.remove in_use u d ≡ some d' = ground arith in
        λ j. (
          get-remove in_use uuid_ts u j d d' h2,
          get-remove in_use ts_uuid u j d d' h2,
          get-remove in_use in_use u j d d' h2,
        )
