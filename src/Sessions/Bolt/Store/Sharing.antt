-- ===== src/Sessions/Bolt/Store/Sharing.antt =====
-- Two users of one session of sessions/boltdb.go: the mark in bInUse is a flag and no count.
use droute.Prelude.{
  ◌≡◌, refl, ◌∙◌, false, Option, none, some, Bytes, bytes_discrete, ite, arith, inl, inr,
  Option-cases,
}
use droute.Sessions.Bolt.Database.{Bolt, uuid_ts, in_use, Indexes}
use droute.Sessions.Bolt.Store.{ok, err, sess_not_found, return_tx, give_back, is_in_use}
use droute.Sessions.Bolt.Store.Transactions.{update_ok, update_err, return_tx-Writes}

module _ {D : Type 0} (bolt : Bolt D) (laws : Indexes bolt) where
  open bolt use {get, commit}
  open laws use {get-commit}

  taken : {A : Type 0} (u : Bytes) (a : Option A) → ite (bytes_discrete u u) none a ≡ none
  taken u a = ground arith

  present :
      (u : Bytes) (d d' : D)
      → return_tx bolt u d ≡ ok d'
      → (buf : Bytes) × (get uuid_ts u d ≡ some buf)
  unfolding return_tx
  present u d d' e = elim (Option-cases (get uuid_ts u d)) [
    | inl absent ↦ absurd (ground arith)
    | inr there ↦ there
  ]

  refused :
      (u buf : Bytes) (d : D)
      → get uuid_ts u d ≡ some buf
      → get in_use u d ≡ none
      → return_tx bolt u d ≡ err sess_not_found
  unfolding return_tx
  refused u buf d known idle = rw (known, return_tx, idle) refl

  -- For a database that does what BoltDB documents: after one Return that succeeds, the session is not
  -- in use, however often it was opened before, and a further Return of it fails with ErrSessNotFound.
  pub give_back-releases :
      (u : Bytes) (d d' : D)
      → give_back bolt u d ≡ (d', ok tt)
      → (is_in_use bolt u d' ≡ ok false) × (give_back bolt u d' ≡ (d', err sess_not_found))
  unfolding give_back is_in_use
  give_back-releases u d d' h =
      let (d1, body, done) = update_ok bolt (return_tx bolt u) d d' h in
      let (buf, there) = present u d d1 body in
      let w = return_tx-Writes bolt laws u d d1 body u in
      let known : get uuid_ts u d' ≡ some buf = get-commit uuid_ts u d1 d' done ∙ w.0 ∙ there in
      let idle : get in_use u d' ≡ none = get-commit in_use u d1 d' done ∙ w.2 ∙ taken u _ in
      (
        rw (known, is_in_use, idle) refl,
        update_err bolt (return_tx bolt u) d' sess_not_found (refused u buf d' known idle),
      )
