-- ===== src/Sessions/Cleanup.antt =====
-- sessions/memstorage.go: Transaction and Ordered.Iter; sessions/memory.go: the clean-up that
-- NewMemSessions starts, and del. One clean-up is one step here; `clock` gives what time.Now()
-- returns at each index. The range over a transaction's map has the order `visit`.
pub mod Survival
mod Tests
use droute.Prelude.{
  ℕ, ◌+◌, Bool, true, Option, none, some, List, [], ◌∷◌, Bytes, bytes_discrete, Map, ℕ_discrete,
  find, insert, delete, ltb, if◌then◌else◌,
}
use droute.Sessions.Ordered.{del_key}
use droute.Sessions.Memory.{
  MemSessions, session_count, SessError, sess_not_found, sess_in_use, not_found,
}

-- Transaction: the items to delete, by address
abbrev pub Transaction : Type 0
Transaction = Map ℕ Bool

-- Transaction.Del; none is the error "not found"
unfoldable pub tx_del : ℕ → Transaction → Option Transaction
tx_del s tx = elim (find ℕ_discrete s tx) [
  | some b ↦ none
  | none ↦ some (insert ℕ_discrete s true tx)
]

-- the loop of Transaction.Commit over the items that the range gives
unfoldable pub commit_items : (ℕ → ℕ) → Transaction → List ℕ → Option (List ℕ)
commit_items key [] o = some o
commit_items key ((s, b) ∷ items) o = elim (del_key key (key s) o) [
  | none ↦ none
  | some r ↦ commit_items key items r
]

-- What the function that Iter is given returns.
pub data IterError : Type 0 where
  iter_stop : IterError
  failed : SessError → IterError

-- Iter ends with a new order, with the error of the function and the order as it was, or with the
-- error of Commit, which leaves the slice half shifted.
pub data Iterated : Type 0 where
  iterated : List ℕ → Iterated
  refused : SessError → Iterated
  half_shifted : Iterated

module _ {T : Type 0} (f : ℕ → ℕ → T × Transaction → (T × Transaction) × Option IterError) where
  -- the loop of Iter; an error ends it
  unfoldable pub iter_items : ℕ → List ℕ → T × Transaction → (T × Transaction) × Option SessError
  iter_items i [] t = (t, none)
  iter_items i (s ∷ items) t =
      let r = f i s t in
      elim r.1 [
        | none ↦ iter_items (i + 1) items r.0
        | some err ↦ elim err [ iter_stop ↦ (r.0, none) | failed e ↦ (r.0, some e) ]
      ]

  -- Ordered.Iter
  unfoldable pub iter : (Transaction → Transaction) → (ℕ → ℕ) → List ℕ → T → T × Iterated
  iter visit key o t =
      let r = iter_items 0 o (t, []) in
      elim r.1 [
        | some e ↦ (r.0.0, refused e)
        | none ↦ elim (commit_items key (visit r.0.1) o) [
          | none ↦ (r.0.0, half_shifted)
          | some o' ↦ (r.0.0, iterated o')
        ]
      ]

module _ (m : MemSessions) where
  -- del: the sessions that are left, the transaction, and the error
  unfoldable pub del_session :
      Bytes → Map Bytes ℕ × Transaction → (Map Bytes ℕ × Transaction) × Option SessError
  del_session uuid (sessions, tx) = elim (find bytes_discrete uuid sessions) [
    | none ↦ ((sessions, tx), some sess_not_found)
    | some s ↦
        if ltb 0 (session_count uuid m.count)
        then ((sessions, tx), some sess_in_use)
        else elim (tx_del s tx) [
          | none ↦ ((sessions, tx), some not_found)
          | some r ↦ ((delete bytes_discrete uuid sessions, r), none)
        ]
  ]

  -- the function that the clean-up gives Iter; an error of del is only logged
  unfoldable pub expire :
      (ℕ → ℕ) → ℕ → ℕ → Map Bytes ℕ × Transaction → (Map Bytes ℕ × Transaction) × Option IterError
  expire clock i s t =
      let r = del_session (m.owner s) t in
      if ltb (clock i) (m.last_seen s) then (r.0, none) else (t, none)

-- The sessions after one clean-up, and how Iter ended.
unfoldable pub cleanup_sessions :
    (Transaction → Transaction) → (ℕ → ℕ) → MemSessions → Map Bytes ℕ × Iterated
cleanup_sessions visit clock m = iter (expire m clock) visit m.last_seen m.o m.sessions

-- The state after it; none if Commit failed.
unfoldable pub cleanup : (Transaction → Transaction) → (ℕ → ℕ) → MemSessions → Option MemSessions
cleanup visit clock m =
    let r = cleanup_sessions visit clock m in
    elim r.1 [
      | iterated o ↦ some (record m { sessions = r.0; o = o })
      | refused e ↦ some (record m { sessions = r.0 })
      | half_shifted ↦ none
    ]
