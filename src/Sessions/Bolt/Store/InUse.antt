-- ===== src/Sessions/Bolt/Store/InUse.antt =====
-- The sessions in use in sessions/boltdb.go: the mark that New and Restore set and that Delete heeds.
use droute.Prelude.{
  ℕ, ◌+◌, ◌≡◌, ◌≢◌, ◌⊎◌, ap, refl, sym, ◌∙◌, true, some, List, [], ◌∷◌, Bytes, bytes_discrete, ite,
  arith, inl, inr,
}
use droute.Sessions.Bolt.Stamp.{stamp}
use droute.Sessions.Bolt.Database.{Bolt, uuid_ts, in_use, Indexes}
use droute.Sessions.Bolt.Store.{
  Outcome, ok, err, sess_in_use, uuid_dup, ignored, update, cancel_session, open_tx, or_cancel,
  open_session, new_tx, new, restore_tx, restore, delete_tx, delete, return_tx, give_back,
  is_in_use, Call, call_new, call_restore, call_delete, call_return, after_call, after_calls,
  finish,
}
use droute.Sessions.Bolt.Store.Transactions.{
  update-keeps, update_ok, update_err, new_tx-Writes, restore_tx-Writes, delete_tx-Writes,
  return_tx-Writes, open_tx-Writes, cancel-Writes,
}

-- A call that leaves the mark of the session alone: neither Return nor Restore of it
abbrev pub Keeps : Bytes → Call → Type 0
Keeps u (call_new w now) = Unit {0}
Keeps u (call_restore w now later) = w ≢ u
Keeps u (call_delete w) = Unit {0}
Keeps u (call_return w) = w ≢ u

abbrev pub AllKeep : Bytes → List Call → Type 0
AllKeep u [] = Unit {0}
AllKeep u (c ∷ cs) = Keeps u c × AllKeep u cs

module _ {D : Type 0} (bolt : Bolt D) where
  open bolt use {get, commit}

  -- The session is there and in use.
  abbrev pub Held : Bytes → D → Type 0
  Held u d = (s : Bytes) × (b : Bytes) × (get uuid_ts u d ≡ some s) × (get in_use u d ≡ some b)

  delete-Held : (u : Bytes) (d : D) → Held u d → delete bolt u d ≡ (d, err sess_in_use)
  unfolding delete update delete_tx
  delete-Held u d (s, b, there, busy) = rw (busy, delete, delete_tx, update, finish) refl

  is_in_use-Held : (u : Bytes) (d : D) → Held u d → is_in_use bolt u d ≡ ok true
  unfolding is_in_use
  is_in_use-Held u d (s, b, there, busy) = rw (there, is_in_use, busy) refl

  module _ (laws : Indexes bolt) where
    open laws use {get-commit}

    Held-commit : (u : Bytes) (a b : D) → commit a ≡ some b → Held u a → Held u b
    Held-commit u a b done (s, x, there, busy) =
        (s, x, get-commit uuid_ts u a b done ∙ there, get-commit in_use u a b done ∙ busy)

    Held-update :
        (u : Bytes) (f : D → Outcome D) (d : D)
        → ((d' : D) → f d ≡ ok d' → Held u d')
        → Held u d
        → Held u (update bolt f d).0
    Held-update u f d body held = update-keeps bolt (Held u) f d body (Held-commit u) held

    -- A transaction that leaves the session's keys alone
    Held-same :
        (u : Bytes) (d d' : D)
        → get uuid_ts u d' ≡ get uuid_ts u d
        → get in_use u d' ≡ get in_use u d
        → Held u d
        → Held u d'
    Held-same u d d' e f (s, x, there, busy) = (s, x, e ∙ there, f ∙ busy)

    other : {A : Type 0} (a b : A) (w u : Bytes) → w ≢ u → ite (bytes_discrete w u) a b ≡ b
    other a b w u ne = ground arith

    Held-cancel : (u w : Bytes) (d : D) → w ≢ u → Held u d → Held u (cancel_session bolt w d)
    unfolding cancel_session
    Held-cancel u w d ne held =
        Held-update u (λ t. ok (ignored t (bolt.remove in_use w t))) d
          (λ d' e.
            let x = cancel-Writes bolt laws w d d' e u in
            Held-same u d d' x.0 (x.2 ∙ other _ _ w u ne) held)
          held

    Held-open_session :
        (u w : Bytes) (r : D × Outcome (Unit {0}))
        → w ≢ u
        → Held u r.0
        → Held u (open_session bolt w r).0
    Held-open_session u w (d, err e) ne held = held
    Held-open_session u w (d, ok x) ne held = go (update bolt (open_tx bolt w) d) opened
      where
        opened : Held u (update bolt (open_tx bolt w) d).0
        opened =
            Held-update u (open_tx bolt w) d
              (λ d' e. let x = open_tx-Writes bolt laws w d d' e u in Held-same u d d' x.0 x.2 held)
              held

        go : (r : D × Outcome (Unit {0})) → Held u r.0 → Held u (or_cancel bolt w r).0
        go (d1, ok y) h = h
        go (d1, err e) h = Held-cancel u w d1 ne h

    new_tx-Held : (u : Bytes) (date : ℕ) (d : D) → Held u d → new_tx bolt u date d ≡ err uuid_dup
    unfolding new_tx
    new_tx-Held u date d (s, b, there, busy) = rw (there, new_tx) refl

    deleted : (u : Bytes) (d : D) → Held u d → Held u (delete bolt u d).0
    deleted u d held = rw (delete-Held u d held) held

    new-Held : (ttl : ℕ) (u : Bytes) (now : ℕ) (d : D) → Held u d → Held u (new bolt ttl u now d).0
    unfolding new
    new-Held ttl u now d held =
        rw
          (update_err bolt (new_tx bolt u (now + ttl)) d uuid_dup
            (new_tx-Held u (now + ttl) d held))
          held

    Held-after_call :
        (ttl : ℕ) (u : Bytes) (c : Call) (d : D)
        → Keeps u c
        → Held u d
        → Held u (after_call bolt ttl c d)
    unfolding after_call new restore delete give_back
    Held-after_call ttl u (call_new w now) d k held = elim (bytes_discrete w u) [
      | yes same ↦ rw same (new-Held ttl u now d held)
      | no ne ↦ Held-open_session u w (update bolt (new_tx bolt w (now + ttl)) d) ne (
          Held-update u (new_tx bolt w (now + ttl)) d
            (λ d' e.
              let x = (new_tx-Writes bolt laws w (now + ttl) d d' e).1 u in
              Held-same u d d' (x.0 ∙ other _ _ w u ne) (x.2 ∙ other _ _ w u ne) held)
            held)
    ]
    Held-after_call ttl u (call_restore w now later) d ne held =
        Held-open_session u w (update bolt (restore_tx bolt w now (later + ttl)) d) ne (
          Held-update u (restore_tx bolt w now (later + ttl)) d
            (λ d' e.
              let x = (restore_tx-Writes bolt laws w now (later + ttl) d d' e).3 u in
              Held-same u d d' (x.0 ∙ other _ _ w u ne) (x.2 ∙ other _ _ w u ne) held)
            held)
    Held-after_call ttl u (call_delete w) d k held = elim (bytes_discrete w u) [
      | yes same ↦ rw same (deleted u d held)
      | no ne ↦
          (Held-update u (delete_tx bolt w) d
            (λ d' e.
              let x = (delete_tx-Writes bolt laws w d d' e).3 u in
              Held-same u d d' (x.0 ∙ other _ _ w u ne) x.2 held)
            held)
    ]
    Held-after_call ttl u (call_return w) d ne held =
        Held-update u (return_tx bolt w) d
          (λ d' e.
            let x = return_tx-Writes bolt laws w d d' e u in
            Held-same u d d' x.0 (x.2 ∙ other _ _ w u ne) held)
          held

    Held-after_calls :
        (ttl : ℕ) (u : Bytes) (cs : List Call) (d : D)
        → AllKeep u cs
        → Held u d
        → Held u (after_calls bolt ttl cs d)
    unfolding after_calls
    Held-after_calls ttl u [] d all held = held
    Held-after_calls ttl u (c ∷ cs) d (k, all) held =
        Held-after_calls ttl u cs (after_call bolt ttl c d) all (Held-after_call ttl u c d k held)

    -- A call that has succeeded has opened the session after its transaction.
    open_session-ok :
        (u : Bytes) (r : D × Outcome (Unit {0})) (d' : D)
        → open_session bolt u r ≡ (d', ok tt)
        → (r.1 ≡ ok tt)
          × ((j : Bytes)
              → (get uuid_ts j d' ≡ get uuid_ts j r.0) × (get in_use j d' ≡ get in_use j r.0))
    open_session-ok u (d, err e) d' h = absurd (ground arith)
    open_session-ok u (d, ok x) d' h = (refl, go (update bolt (open_tx bolt u) d) refl h)
      where
        go :
            (r : D × Outcome (Unit {0}))
            → update bolt (open_tx bolt u) d ≡ r
            → or_cancel bolt u r ≡ (d', ok tt)
            → ((j : Bytes)
                → (get uuid_ts j d' ≡ get uuid_ts j d) × (get in_use j d' ≡ get in_use j d))
        go (d1, err e) eq k = absurd (ground arith)
        go (d1, ok y) eq k =
            let (d2, body, done) = update_ok bolt (open_tx bolt u) d d1 eq in
            let w = open_tx-Writes bolt laws u d d2 body in
            let same : d1 ≡ d' = ap (λ x. x.0) k in
            λ j. (
              rw (sym same) (get-commit uuid_ts j d2 d1 done ∙ (w j).0),
              rw (sym same) (get-commit in_use j d2 d1 done ∙ (w j).2),
            )

    opened-Held :
        (u s : Bytes) (f : D → Outcome D) (d d' : D)
        → ((d1 : D) → f d ≡ ok d1 → (get uuid_ts u d1 ≡ some s) × (get in_use u d1 ≡ some []))
        → open_session bolt u (update bolt f d) ≡ (d', ok tt)
        → Held u d'
    opened-Held u s f d d' marks h =
        let (done, kept) = open_session-ok u (update bolt f d) d' h in
        let (d1, body, committed) = update_ok bolt f d (update bolt f d).0 (ground arith) in
        let (there, busy) = marks d1 body in
        (
          s,
          [],
          (kept u).0 ∙ get-commit uuid_ts u d1 (update bolt f d).0 committed ∙ there,
          (kept u).1 ∙ get-commit in_use u d1 (update bolt f d).0 committed ∙ busy,
        )

    own : {A : Type 0} (a b : A) (u : Bytes) → ite (bytes_discrete u u) a b ≡ a
    own a b u = ground arith

    new_opens :
        (ttl : ℕ) (u : Bytes) (now : ℕ) (d d' : D) → new bolt ttl u now d ≡ (d', ok tt) → Held u d'
    unfolding new
    new_opens ttl u now d d' h =
        opened-Held u (stamp (now + ttl)) (new_tx bolt u (now + ttl)) d d'
          (λ d1 body.
            let w = (new_tx-Writes bolt laws u (now + ttl) d d1 body).1 u in
            (w.0 ∙ own _ _ u, w.2 ∙ own _ _ u))
          h

    restore_opens :
        (ttl : ℕ) (u : Bytes) (now later : ℕ) (d d' : D)
        → restore bolt ttl u now later d ≡ (d', ok tt)
        → Held u d'
    unfolding restore
    restore_opens ttl u now later d d' h =
        opened-Held u (stamp (later + ttl)) (restore_tx bolt u now (later + ttl)) d d'
          (λ d1 body.
            let w = (restore_tx-Writes bolt laws u now (later + ttl) d d1 body).3 u in
            (w.0 ∙ own _ _ u, w.2 ∙ own _ _ u))
          h

    opens :
        (ttl : ℕ) (u : Bytes) (now later : ℕ) (d d' : D)
        → (new bolt ttl u now d ≡ (d', ok tt)) ⊎ (restore bolt ttl u now later d ≡ (d', ok tt))
        → Held u d'
    opens ttl u now later d d' (inl h) = new_opens ttl u now d d' h
    opens ttl u now later d d' (inr h) = restore_opens ttl u now later d d' h

    -- For a database that does what BoltDB documents: when New or Restore of a session has succeeded,
    -- then after any run of calls, failing ones included, in which that session is neither given to
    -- Return nor to Restore, IsInUse answers true, and Delete of it fails with ErrSessInUse and changes
    -- nothing.
    pub opened_in_use :
        (ttl : ℕ) (u : Bytes) (now later : ℕ) (d d' : D) (cs : List Call)
        → (new bolt ttl u now d ≡ (d', ok tt)) ⊎ (restore bolt ttl u now later d ≡ (d', ok tt))
        → AllKeep u cs
        → let e = after_calls bolt ttl cs d' in
          (is_in_use bolt u e ≡ ok true) × (delete bolt u e ≡ (e, err sess_in_use))
    opened_in_use ttl u now later d d' cs h all =
        let held = Held-after_calls ttl u cs d' all (opens ttl u now later d d' h) in
        (
          is_in_use-Held u (after_calls bolt ttl cs d') held,
          delete-Held u (after_calls bolt ttl cs d') held,
        )
