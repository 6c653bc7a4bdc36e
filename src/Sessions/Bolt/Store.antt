-- ===== src/Sessions/Bolt/Store.antt =====
-- sessions/boltdb.go: SessionsBoltDB. A method is one transaction, or two; `now` and `later` are what
-- time.Now() returned in it.
pub mod Transactions
pub mod Index
pub mod InUse
pub mod Sharing
pub mod Opening
use droute.Prelude.{
  ℕ, ◌+◌, Bool, true, false, Option, none, some, List, [], ◌∷◌, Bytes, ltb, if◌then◌else◌,
}
use droute.Sessions.Bolt.Stamp.{stamp, read_stamp}
use droute.Sessions.Bolt.Database.{Bolt, BucketName, uuid_ts, ts_uuid, in_use}

-- The errors of the store; `bolt_failed` stands for any of BoltDB's own, `codec_failed`
-- for one of the codec, `panicked` for the call of a
-- method on a nil bucket.
pub data BoltError : Type 0 where
  uuid_dup sess_not_found sess_expired sess_in_use bolt_failed panicked data_not_found cant_store
        cant_decode codec_failed :
      BoltError

pub data Outcome (A : Type 0) : Type 0 where
  ok : A → Outcome A
  err : BoltError → Outcome A

infixl 5 ◌>>=◌
abbrev pub ◌>>=◌ : {A B : Type 0} → Outcome A → (A → Outcome B) → Outcome B
ok a >>= f = f a
err e >>= f = err e

-- an error of BoltDB, wrapped by e.New
abbrev pub checked : {A : Type 0} → Option A → Outcome A
checked none = err bolt_failed
checked (some a) = ok a

-- an error that the code drops
abbrev pub ignored : {A : Type 0} → A → Option A → A
ignored a none = a
ignored a (some b) = b

-- A time that is negative is before every other.
abbrev pub before_time : Option ℕ → ℕ → Bool
before_time none now = true
before_time (some t) now = ltb t now

module _ {D : Type 0} (bolt : Bolt D) where
  open bolt use {
    get, put, remove, make_bucket, create_bucket, drop_bucket, commit, has_root, make_root,
    make_child, drop_child,
  }

  -- db.Update: an error, and a panic, undo the transaction.
  abbrev pub finish : D → Outcome D → D × Outcome (Unit {0})
  finish d (err e) = (d, err e)
  finish d (ok d') = elim (commit d') [ none ↦ (d, err bolt_failed) | some kept ↦ (kept, ok tt) ]

  unfoldable pub update : (D → Outcome D) → D → D × Outcome (Unit {0})
  update f d = finish d (f d)

  -- the transaction of OpenSessionsBoltDB, which drops the error of DeleteBucket
  unfoldable pub open_store_tx : D → Outcome D
  open_store_tx d = do
    d1 ← checked (make_bucket uuid_ts d)
    d2 ← checked (make_bucket ts_uuid d1)
    checked (create_bucket in_use (ignored d2 (drop_bucket in_use d2)))

  -- OpenSessionsBoltDB, once the file is open
  unfoldable pub open_store : D → D × Outcome (Unit {0})
  open_store d = update open_store_tx d

  -- cancelSession
  unfoldable pub cancel_session : Bytes → D → D
  cancel_session uuid d = (update (λ t. ok (ignored t (remove in_use uuid t))) d).0

  -- openSessionBoltDB
  unfoldable pub open_tx : Bytes → D → Outcome D
  open_tx uuid d = do d1 ← checked (make_root d); checked (make_child uuid d1)

  abbrev pub or_cancel : Bytes → D × Outcome (Unit {0}) → D × Outcome (Unit {0})
  or_cancel uuid (d, ok u) = (d, ok u)
  or_cancel uuid (d, err e) = (cancel_session uuid d, err e)

  -- what New and Restore do behind their transaction
  abbrev pub open_session : Bytes → D × Outcome (Unit {0}) → D × Outcome (Unit {0})
  open_session uuid (d, err e) = (d, err e)
  open_session uuid (d, ok u) = or_cancel uuid (update (open_tx uuid) d)

  -- the transaction of New
  unfoldable pub new_tx : Bytes → ℕ → D → Outcome D
  new_tx uuid date d = elim (get uuid_ts uuid d) [
    | some buf ↦ err uuid_dup
    | none ↦ do
      d1 ← checked (put uuid_ts uuid (stamp date) d)
      d2 ← checked (put ts_uuid (stamp date) uuid d1)
      checked (put in_use uuid [] d2)
  ]

  -- New
  unfoldable pub new : ℕ → Bytes → ℕ → D → D × Outcome (Unit {0})
  new ttl uuid now d = open_session uuid (update (new_tx uuid (now + ttl)) d)

  -- the end of the transaction of Restore
  unfoldable pub renew_tx : Bytes → ℕ → D → Outcome D
  renew_tx uuid date d = do
    d1 ← checked (put uuid_ts uuid (stamp date) d)
    checked (put ts_uuid (stamp date) uuid d1)

  -- the transaction of Restore
  unfoldable pub restore_tx : Bytes → ℕ → ℕ → D → Outcome D
  restore_tx uuid now date d = do
    d1 ← checked (put in_use uuid [] d)
    elim (get uuid_ts uuid d1) [
      | none ↦ err sess_not_found
      | some buf ↦ do
        d2 ← checked (remove ts_uuid buf d1)
        if before_time (read_stamp buf) now then err sess_expired else renew_tx uuid date d2
    ]

  -- Restore
  unfoldable pub restore : ℕ → Bytes → ℕ → ℕ → D → D × Outcome (Unit {0})
  restore ttl uuid now later d = open_session uuid (update (restore_tx uuid now (later + ttl)) d)

  -- the transaction of Delete, which drops two of BoltDB's errors
  unfoldable pub delete_tx : Bytes → D → Outcome D
  delete_tx uuid d = elim (get in_use uuid d) [
    | some buf ↦ err sess_in_use
    | none ↦ elim (has_root d) [
      | false ↦ err panicked
      | true ↦
          let d1 = ignored d (drop_child uuid d) in
          elim (get uuid_ts uuid d1) [
            | none ↦ err sess_not_found
            | some buf ↦ checked (remove uuid_ts uuid (ignored d1 (remove ts_uuid buf d1)))
          ]
    ]
  ]

  -- Delete
  unfoldable pub delete : Bytes → D → D × Outcome (Unit {0})
  delete uuid d = update (delete_tx uuid) d

  -- the transaction of Return
  unfoldable pub return_tx : Bytes → D → Outcome D
  return_tx uuid d = elim (get uuid_ts uuid d) [
    | none ↦ err sess_not_found
    | some buf ↦ elim (get in_use uuid d) [
      | none ↦ err sess_not_found
      | some b ↦ checked (remove in_use uuid d)
    ]
  ]

  -- Return, given the session's UUID
  unfoldable pub give_back : Bytes → D → D × Outcome (Unit {0})
  give_back uuid d = update (return_tx uuid) d

  -- IsInUse
  unfoldable pub is_in_use : Bytes → D → Outcome Bool
  is_in_use uuid d = elim (get uuid_ts uuid d) [
    | none ↦ err sess_not_found
    | some buf ↦ elim (get in_use uuid d) [ none ↦ ok false | some b ↦ ok true ]
  ]

  -- Ttl: the time, which is returned beside the error of an expired session too
  unfoldable pub time_to_live : Bytes → ℕ → D → Outcome (Option ℕ × Bool)
  time_to_live uuid now d = elim (get uuid_ts uuid d) [
    | none ↦ err sess_not_found
    | some buf ↦ ok (read_stamp buf, before_time (read_stamp buf) now)
  ]

-- The calls that change the database, each with the times that it reads.
pub data Call : Type 0 where
  call_new : Bytes → ℕ → Call
  call_restore : Bytes → ℕ → ℕ → Call
  call_delete call_return : Bytes → Call

module _ {D : Type 0} (bolt : Bolt D) (ttl : ℕ) where
  unfoldable pub after_call : Call → D → D
  after_call (call_new uuid now) d = (new bolt ttl uuid now d).0
  after_call (call_restore uuid now later) d = (restore bolt ttl uuid now later d).0
  after_call (call_delete uuid) d = (delete bolt uuid d).0
  after_call (call_return uuid) d = (give_back bolt uuid d).0

  -- a run of calls
  unfoldable pub after_calls : List Call → D → D
  after_calls [] d = d
  after_calls (c ∷ cs) d = after_calls cs (after_call c d)
