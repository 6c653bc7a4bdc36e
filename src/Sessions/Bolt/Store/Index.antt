-- ===== src/Sessions/Bolt/Store/Index.antt =====
-- The two indexes of sessions/boltdb.go, UUID to time and time to UUID, agree.
use droute.Prelude.{
  ℕ, ◌+◌, ◌≡◌, sym, ◌∙◌, Option, none, some, List, [], ◌∷◌, Bytes, bytes_discrete, ite, arith,
}
use droute.Sessions.Bolt.Database.{Bolt, uuid_ts, ts_uuid, in_use, bucket_discrete, Indexes}
use droute.Sessions.Bolt.Store.{
  Outcome, ok, err, ignored, update, cancel_session, open_tx, or_cancel, open_session, new_tx, new,
  restore_tx, restore, delete_tx, delete, return_tx, give_back, Call, call_new, call_restore,
  call_delete, call_return, after_call, after_calls,
}
use droute.Sessions.Bolt.Store.Transactions.{
  Writes, update-keeps, new_tx-Writes, restore_tx-Writes, delete_tx-Writes, return_tx-Writes,
  open_tx-Writes, cancel-Writes,
}

module _ {D : Type 0} (bolt : Bolt D) where
  open bolt use {get, commit}

  -- A time that leads to a session is the time of that session.
  abbrev pub Indexed : D → Type 0
  Indexed d = (s u : Bytes) → get ts_uuid s d ≡ some u → get uuid_ts u d ≡ some s

  module _ (laws : Indexes bolt) where
    open laws use {get-commit, get-remove}

    Indexed-commit : (a b : D) → commit a ≡ some b → Indexed a → Indexed b
    Indexed-commit a b done inv =
        λ s u e. get-commit uuid_ts u a b done ∙ inv s u (sym (get-commit ts_uuid s a b done) ∙ e)

    Indexed-update :
        (f : D → Outcome D) (d : D)
        → ((d' : D) → f d ≡ ok d' → Indexed d')
        → Indexed d
        → Indexed (update bolt f d).0
    Indexed-update f d body inv = update-keeps bolt Indexed f d body Indexed-commit inv

    -- A transaction that leaves the two indexes alone
    Indexed-same :
        (c : Bytes → Option Bytes) (d d' : D)
        → Writes bolt (λ j. get uuid_ts j d) (λ j. get ts_uuid j d) c d'
        → Indexed d
        → Indexed d'
    Indexed-same c d d' w inv = λ s u e. (w u).0 ∙ inv s u (sym (w s).1 ∙ e)

    Indexed-cancel : (u : Bytes) (d : D) → Indexed d → Indexed (cancel_session bolt u d)
    unfolding cancel_session bucket_discrete
    Indexed-cancel u d inv =
        Indexed-update (λ t. ok (ignored t (bolt.remove in_use u t))) d
          (λ d' e.
            Indexed-same (λ j. ite (bytes_discrete u j) none (get in_use j d)) d d'
              (cancel-Writes bolt laws u d d' e) inv)
          inv

    Indexed-new_tx :
        (u : Bytes) (date : ℕ) (d d' : D) → new_tx bolt u date d ≡ ok d' → Indexed d → Indexed d'
    Indexed-new_tx u date d d' e inv =
        let (absent, w) = new_tx-Writes bolt laws u date d d' e in
        λ s v h. ground (arith, w s, w v, inv s v)

    Indexed-restore_tx :
        (u : Bytes) (now date : ℕ) (d d' : D)
        → restore_tx bolt u now date d ≡ ok d'
        → Indexed d
        → Indexed d'
    Indexed-restore_tx u now date d d' e inv =
        let (buf, there, early, w) = restore_tx-Writes bolt laws u now date d d' e in
        λ s v h. ground (arith, w s, w v, inv s v)

    Indexed-delete_tx : (u : Bytes) (d d' : D) → delete_tx bolt u d ≡ ok d' → Indexed d → Indexed d'
    Indexed-delete_tx u d d' e inv =
        let (buf, idle, there, w) = delete_tx-Writes bolt laws u d d' e in
        λ s v h. ground (arith, w s, w v, inv s v)

    Indexed-open_session :
        (u : Bytes) (r : D × Outcome (Unit {0})) → Indexed r.0 → Indexed (open_session bolt u r).0
    Indexed-open_session u (d, err e) inv = inv
    Indexed-open_session u (d, ok x) inv = go (update bolt (open_tx bolt u) d) opened
      where
        opened : Indexed (update bolt (open_tx bolt u) d).0
        opened =
            Indexed-update (open_tx bolt u) d
              (λ d' e.
                Indexed-same (λ j. get in_use j d) d d' (open_tx-Writes bolt laws u d d' e) inv)
              inv

        go : (r : D × Outcome (Unit {0})) → Indexed r.0 → Indexed (or_cancel bolt u r).0
        go (d1, ok y) i = i
        go (d1, err e) i = Indexed-cancel u d1 i

    Indexed-after_call :
        (ttl : ℕ) (c : Call) (d : D) → Indexed d → Indexed (after_call bolt ttl c d)
    unfolding after_call new restore delete give_back
    Indexed-after_call ttl (call_new u now) d inv =
        Indexed-open_session u (update bolt (new_tx bolt u (now + ttl)) d) (
          Indexed-update (new_tx bolt u (now + ttl)) d
            (λ d' e. Indexed-new_tx u (now + ttl) d d' e inv) inv)
    Indexed-after_call ttl (call_restore u now later) d inv =
        Indexed-open_session u (update bolt (restore_tx bolt u now (later + ttl)) d) (
          Indexed-update (restore_tx bolt u now (later + ttl)) d
            (λ d' e. Indexed-restore_tx u now (later + ttl) d d' e inv) inv)
    Indexed-after_call ttl (call_delete u) d inv =
        Indexed-update (delete_tx bolt u) d (λ d' e. Indexed-delete_tx u d d' e inv) inv
    Indexed-after_call ttl (call_return u) d inv =
        Indexed-update (return_tx bolt u) d
          (λ d' e.
            Indexed-same (λ j. ite (bytes_discrete u j) none (get in_use j d)) d d'
              (return_tx-Writes bolt laws u d d' e) inv)
          inv

    -- For a database that does what BoltDB documents: if every time of bTSUUID that leads to a session
    -- is that session's time in bUUIDTS, this still holds after any run of New, Restore, Delete and
    -- Return, failing calls and failing transactions included.
    pub after_calls-Indexed :
        (ttl : ℕ) (cs : List Call) (d : D) → Indexed d → Indexed (after_calls bolt ttl cs d)
    unfolding after_calls
    after_calls-Indexed ttl [] d inv = inv
    after_calls-Indexed ttl (c ∷ cs) d inv =
        after_calls-Indexed ttl cs (after_call bolt ttl c d) (Indexed-after_call ttl c d inv)
