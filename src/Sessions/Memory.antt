-- ===== src/Sessions/Memory.antt =====
-- sessions/memory.go: MemSessions, the sessions that are alive, by their id and in the order of
-- lastSeen. A session is an object that the map and the order share, so it has an address here.
-- Each method holds the lock and is one step; `now` is what time.Now() returned in it.
pub mod Members
pub mod Valid
pub mod Keeping
pub mod Restoring
use droute.Prelude.{
  ℕ, zero, suc, ◌+◌, ◌-◌, ◌^◌, ◌%◌, Bool, true, false, not, ◌&&◌, Option, none, some, List, [], ◌∷◌,
  ◌++◌, ltb, ◌==◌, if◌then◌else◌, Bytes, bytes_discrete, Map, find, insert, delete,
}
use droute.Sessions.Ordered.{set_item, del_key}

-- sessions/errors.go, and the errors of Ordered that are passed on
pub data SessError : Type 0 where
  sess_found sess_not_found sess_in_use sess_expired item_found not_found : SessError

pub data Answer (A : Type 0) : Type 0 where
  done : A → Answer A
  fail : SessError → Answer A

-- `last_seen` and `owner` (the UUID) are the fields of the session at an address, `next` is the
-- next free address. `dsignal` is whether that channel is there. `waiting` stands for signal, whose channels have numbers; `signalled` and
-- `counted` list what was sent on those channels and on dsignal, the last first.
pub record MemSessions : Type 0 where
  pub last_seen : ℕ → ℕ
  pub owner : ℕ → Bytes
  pub next : ℕ
  pub sessions : Map Bytes ℕ
  pub o : List ℕ
  pub ttl : ℕ
  pub count : Map Bytes ℕ
  pub waiting : Map Bytes (List ℕ)
  pub isclosed : Bool
  pub dsignal : Bool
  pub signalled : List ℕ
  pub counted : List ℕ

-- an assignment to the field of the object at `p`
abbrev pub assign : {A : Type 0} → ℕ → A → (ℕ → A) → ℕ → A
assign p a f q = if p == q then a else f q

-- NewMemSessions, without its goroutine
abbrev pub new_mem_sessions : ℕ → MemSessions
new_mem_sessions ttl = record {
  last_seen = λ p. 0;
  owner = λ p. [];
  next = 0;
  sessions = [];
  o = [];
  ttl = ttl;
  count = [];
  waiting = [];
  isclosed = false;
  dsignal = false;
  signalled = [];
  counted = [];
}

-- sessionCount, whose counts are of Go's uint
unfoldable pub session_count : Bytes → Map Bytes ℕ → ℕ
session_count uuid count = elim (find bytes_discrete uuid count) [ none ↦ 0 | some n ↦ n ]

-- sessionInc
unfoldable pub session_inc : Bytes → Map Bytes ℕ → Map Bytes ℕ
session_inc uuid count = elim (find bytes_discrete uuid count) [
  | none ↦ insert bytes_discrete uuid 1 count
  | some n ↦ insert bytes_discrete uuid ((n + 1) % 2 ^ 64) count
]

-- sessionInUse
unfoldable pub session_in_use : Bytes → Map Bytes ℕ → Bool
session_in_use uuid count = elim (find bytes_discrete uuid count) [
  | none ↦ false
  | some n ↦ ltb 0 n
]

-- sessionAny, which Close waits on
unfoldable pub session_any : Map Bytes ℕ → Bool
session_any [] = false
session_any ((uuid, n) ∷ count) = if ltb 0 n then true else session_any count

-- sessionDec, the send of its deferred function apart
unfoldable pub session_dec : Bytes → Map Bytes ℕ → Map Bytes ℕ
session_dec uuid count = elim (find bytes_discrete uuid count) [
  | none ↦ insert bytes_discrete uuid 0 count
  | some n ↦ if n == 0 then count else insert bytes_discrete uuid (n - 1) count
]

-- what the deferred function sends on dsignal, if Close waits
unfoldable pub sent_count : Bytes → MemSessions → List ℕ
sent_count uuid m = elim (find bytes_discrete uuid m.count) [
  | none ↦ m.counted
  | some n ↦
      if m.dsignal then session_count uuid (session_dec uuid m.count) ∷ m.counted else m.counted
]

-- New
unfoldable pub new : Bytes → ℕ → MemSessions → MemSessions × Answer ℕ
new uuid now m = elim (find bytes_discrete uuid m.sessions) [
  | some p ↦ (m, fail sess_found)
  | none ↦
      let s = m.next in
      let last_seen = assign s (now + m.ttl) m.last_seen in
      let made = record m { last_seen = last_seen; owner = assign s uuid m.owner; next = suc s } in
      elim (set_item last_seen s m.o) [
        | none ↦ (made, fail item_found)
        | some o ↦ (
          record made {
            o = o;
            sessions = insert bytes_discrete uuid s m.sessions;
            count = session_inc uuid m.count;
          },
          done s,
        )
      ]
]

-- Restore takes the session out of the order and puts it back with a later time.
unfoldable pub restore : Bytes → ℕ → MemSessions → MemSessions × Answer ℕ
restore uuid now m = elim (find bytes_discrete uuid m.sessions) [
  | none ↦ (m, fail sess_not_found)
  | some s ↦ elim (del_key m.last_seen (m.last_seen s) m.o) [
    | none ↦ (m, fail not_found)
    | some o ↦
        let last_seen = assign s (now + m.ttl) m.last_seen in
        elim (set_item last_seen s o) [
          | none ↦ (record m { o = o; last_seen = last_seen }, fail item_found)
          | some r ↦
              (record m { o = r; last_seen = last_seen; count = session_inc uuid m.count }, done s)
        ]
  ]
]

-- Delete
unfoldable pub delete_session : Bytes → MemSessions → MemSessions × Answer (Unit {0})
delete_session uuid m = elim (find bytes_discrete uuid m.sessions) [
  | none ↦ (m, fail sess_not_found)
  | some s ↦
      if ltb 0 (session_count uuid m.count)
      then (m, fail sess_in_use)
      else elim (del_key m.last_seen (m.last_seen s) m.o) [
        | none ↦ (m, fail not_found)
        | some o ↦ (record m { o = o; sessions = delete bytes_discrete uuid m.sessions }, done tt)
      ]
]

-- the sends of Return to the channels that wait for the session, and the end of the wait
unfoldable pub signal_waiting : Bytes → MemSessions → MemSessions
signal_waiting uuid m = elim (find bytes_discrete uuid m.waiting) [
  | none ↦ m
  | some chs ↦ record m {
    signalled = chs ++ m.signalled;
    waiting = delete bytes_discrete uuid m.waiting;
  }
]

-- Return, given the session's UUID
unfoldable pub give_back : Bytes → MemSessions → MemSessions × Answer (Unit {0})
give_back uuid m = elim (find bytes_discrete uuid m.sessions) [
  | none ↦ (m, fail sess_not_found)
  | some s ↦
      let r = signal_waiting uuid m in
      (record r { count = session_dec uuid r.count; counted = sent_count uuid r }, done tt)
]

-- IsInUse
unfoldable pub is_in_use : Bytes → MemSessions → Answer Bool
is_in_use uuid m = elim (find bytes_discrete uuid m.sessions) [
  | none ↦ fail sess_not_found
  | some s ↦ done (session_in_use uuid m.count)
]

-- Ttl
unfoldable pub time_to_live : Bytes → ℕ → MemSessions → Answer ℕ
time_to_live uuid now m = elim (find bytes_discrete uuid m.sessions) [
  | none ↦ fail sess_not_found
  | some s ↦ if ltb (m.last_seen s) now then fail sess_expired else done (m.last_seen s)
]

-- The rounds of Close, from the label again: true when it is over, and otherwise it waits for a
-- count on dsignal.
unfoldable pub close_round : MemSessions → MemSessions × Bool
close_round m =
    if session_any m.count
    then (record m { isclosed = true; dsignal = true }, false)
    else (record m { isclosed = true; dsignal = false }, true)

-- The calls that change the state.
pub data Call : Type 0 where
  call_new call_restore : Bytes → ℕ → Call
  call_delete call_return : Bytes → Call

unfoldable pub after_call : Call → MemSessions → MemSessions
after_call (call_new uuid now) m = (new uuid now m).0
after_call (call_restore uuid now) m = (restore uuid now m).0
after_call (call_delete uuid) m = (delete_session uuid m).0
after_call (call_return uuid) m = (give_back uuid m).0

unfoldable pub after_calls : List Call → MemSessions → MemSessions
after_calls [] m = m
after_calls (c ∷ calls) m = after_calls calls (after_call c m)
