-- ===== src/Sessions/Bolt/Store/Opening.antt =====
-- What OpenSessionsBoltDB of sessions/boltdb.go leaves of the sessions of a run before.
use droute.Prelude.{◌≡◌, refl, ◌∙◌, false, none, some, Bytes, ite, arith, inl, inr, Option-cases}
use droute.Sessions.Bolt.Database.{
  Bolt, BucketName, uuid_ts, ts_uuid, in_use, bucket_discrete, Indexes,
}
use droute.Sessions.Bolt.Store.{
  ok, err, sess_not_found, ignored, is_in_use, open_store_tx, open_store,
}
use droute.Sessions.Bolt.Store.Transactions.{Writes, update_ok, checked_ok, checked-eq-ok}

module _ {D : Type 0} (bolt : Bolt D) (laws : Indexes bolt) where
  open bolt use {get, commit}
  open laws use {get-commit, get-make_bucket, get-drop_bucket, get-create_bucket}

  dropped :
      (m : BucketName) (j : Bytes) (d : D)
      → ite (bucket_discrete in_use m) (get m j d) (get m j (ignored d (bolt.drop_bucket in_use d)))
        ≡ get m j d
  unfolding bucket_discrete
  dropped m j d = elim (Option-cases (bolt.drop_bucket in_use d)) [
    | inl lost ↦ rw lost (ground arith)
    | inr (d1, h) ↦ rw h (ground (arith, get-drop_bucket in_use m j d d1 h))
  ]

  open_store_tx-Writes :
      (d d' : D)
      → open_store_tx bolt d ≡ ok d'
      → Writes bolt (λ j. get uuid_ts j d) (λ j. get ts_uuid j d) (λ j. none) d'
  unfolding open_store_tx bucket_discrete
  open_store_tx-Writes d d' e =
      let (d1, h1, e1) = checked-eq-ok (bolt.make_bucket uuid_ts d) _ e in
      let (d2, h2, e2) = checked-eq-ok (bolt.make_bucket ts_uuid d1) _ e1 in
      let h3 =
        checked_ok (bolt.create_bucket in_use (ignored d2 (bolt.drop_bucket in_use d2))) e2 in
      let d3 = ignored d2 (bolt.drop_bucket in_use d2) in
      let same : (m : BucketName) (j : Bytes) → get m j d2 ≡ get m j d =
        λ m j. get-make_bucket ts_uuid m j d1 d2 h2 ∙ get-make_bucket uuid_ts m j d d1 h1 in
      λ j. (
        ground (
          arith,
          get-create_bucket in_use uuid_ts j d3 d' h3,
          dropped uuid_ts j d2,
          same uuid_ts j,
        ),
        ground (
          arith,
          get-create_bucket in_use ts_uuid j d3 d' h3,
          dropped ts_uuid j d2,
          same ts_uuid j,
        ),
        ground (arith, get-create_bucket in_use in_use j d3 d' h3),
      )

  -- For a database that does what BoltDB documents: after an OpenSessionsBoltDB that succeeds no session
  -- is in use: IsInUse answers false for a session that the database knew before, and
  -- ErrSessNotFound for any other; the two indexes are those of before.
  pub open_store-Idle :
      (d d' : D) (u : Bytes)
      → open_store bolt d ≡ (d', ok tt)
      → (is_in_use bolt u d'
          ≡ elim (get uuid_ts u d) [ none ↦ err sess_not_found | some s ↦ ok false ])
        × (get uuid_ts u d' ≡ get uuid_ts u d)
        × (get ts_uuid u d' ≡ get ts_uuid u d)
  unfolding open_store is_in_use
  open_store-Idle d d' u h =
      let (d1, body, done) = update_ok bolt (open_store_tx bolt) d d' h in
      let w = open_store_tx-Writes d d1 body u in
      let known : get uuid_ts u d' ≡ get uuid_ts u d = get-commit uuid_ts u d1 d' done ∙ w.0 in
      let idle : get in_use u d' ≡ none = get-commit in_use u d1 d' done ∙ w.2 in
      (
        rw (known, is_in_use)
            (elim (Option-cases (get uuid_ts u d)) [
              | inl absent ↦ rw absent refl
              | inr (s, there) ↦ rw (there, idle) refl
            ]),
        known,
        get-commit ts_uuid u d1 d' done ∙ w.1,
      )
