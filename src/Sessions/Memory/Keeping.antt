-- ===== src/Sessions/Memory/Keeping.antt =====
-- What the use counts promise: a session that is handed out stays until it is given back.
use droute.Prelude.{
  ℕ, suc, ◌+◌, ◌-◌, ◌^◌, ◌%◌, ◌<◌, ◌≤◌, ◌≡◌, ◌≢◌, ite, some, List, [], ◌∷◌, length, ◌==◌, arith,
  inl, inr, Bool-cases, Option-cases, Bytes, bytes_discrete, Map, find, insert, find-insert,
  find-delete,
}
use droute.Sessions.Memory.{
  MemSessions, session_inc, session_dec, session_count, new, restore, delete_session, give_back,
  signal_waiting, Call, call_new, call_restore, call_delete, call_return, after_call, after_calls,
}

session_count-insert :
    (u q : Bytes) (n : ℕ) (count : Map Bytes ℕ)
    → session_count q (insert bytes_discrete u n count)
      ≡ ite (bytes_discrete u q) n (session_count q count)
unfolding session_count
session_count-insert u q n count = ground (arith, find-insert bytes_discrete u q n count)

pub session_count-session_inc :
    (u q : Bytes) (count : Map Bytes ℕ)
    → session_count q (session_inc u count)
      ≡ ite (bytes_discrete u q) ((session_count u count + 1) % 2 ^ 64) (session_count q count)
unfolding session_inc session_count
session_count-session_inc u q count = elim (Option-cases (find bytes_discrete u count)) [
  | inl absent ↦ rw (absent, session_inc, session_count) (session_count-insert u q 1 count)
  | inr (n, there) ↦
      rw (there, session_inc, session_count) (session_count-insert u q ((n + 1) % 2 ^ 64) count)
]

pub session_count-session_dec :
    (u q : Bytes) (count : Map Bytes ℕ)
    → session_count q (session_dec u count)
      ≡ ite (bytes_discrete u q) (session_count u count - 1) (session_count q count)
unfolding session_dec session_count
session_count-session_dec u q count = elim (Option-cases (find bytes_discrete u count)) [
  | inl absent ↦ rw (absent, session_dec, session_count) (session_count-insert u q 0 count)
  | inr (n, there) ↦ elim (Bool-cases (n == 0)) [
    | inl zero_n ↦ rw (there, session_dec, session_count, zero_n) (ground arith)
    | inr other ↦
        rw (there, session_dec, session_count, other) (session_count-insert u q (n - 1) count)
  ]
]

-- Not a Return of the session
abbrev pub Keeps : Bytes → Call → Type 0
Keeps uuid (call_return u) = u ≢ uuid
Keeps uuid (call_new u now) = Unit
Keeps uuid (call_restore u now) = Unit
Keeps uuid (call_delete u) = Unit

abbrev pub AllKeep : Bytes → List Call → Type 0
AllKeep uuid [] = Unit
AllKeep uuid (c ∷ calls) = Keeps uuid c × AllKeep uuid calls

-- The session has address `p`, and its count lies between bounds.
abbrev pub InUse : Bytes → ℕ → ℕ → ℕ → MemSessions → Type 0
InUse uuid p low high m =
    (find bytes_discrete uuid m.sessions ≡ some p)
    × (low ≤ session_count uuid m.count)
    × (session_count uuid m.count ≤ high)

module _ (uuid : Bytes) (p : ℕ) (low high : ℕ) (pos : 0 < low) (below : high + 1 < 2 ^ 64)
    (m : MemSessions) (used : InUse uuid p low high m) where
  counted :
      (u : Bytes)
      → (low ≤ session_count uuid (session_inc u m.count))
        × (session_count uuid (session_inc u m.count) ≤ suc high)
  counted u = ground (arith, session_count-session_inc u uuid m.count, used)

  new-InUse : (u : Bytes) (now : ℕ) → InUse uuid p low (suc high) (new u now m).0
  unfolding new
  new-InUse u now =
      ground (arith, counted u, used, find-insert bytes_discrete u uuid m.next m.sessions)

  restore-InUse : (u : Bytes) (now : ℕ) → InUse uuid p low (suc high) (restore u now m).0
  unfolding restore
  restore-InUse u now = ground (arith, counted u, used)

  delete_session-InUse : (u : Bytes) → InUse uuid p low (suc high) (delete_session u m).0
  unfolding delete_session
  delete_session-InUse u = ground (arith, used, find-delete bytes_discrete u uuid m.sessions)

  give_back-InUse : (u : Bytes) → u ≢ uuid → InUse uuid p low (suc high) (give_back u m).0
  unfolding give_back signal_waiting
  give_back-InUse u other = ground (arith, used, session_count-session_dec u uuid m.count)

call-InUse :
    (uuid : Bytes) (p low high : ℕ) (c : Call) (m : MemSessions)
    → 0 < low
    → high + 1 < 2 ^ 64
    → Keeps uuid c
    → InUse uuid p low high m
    → InUse uuid p low (suc high) (after_call c m)
unfolding after_call
call-InUse uuid p low high (call_new u now) m pos below keep used =
    new-InUse uuid p low high pos below m used u now
call-InUse uuid p low high (call_restore u now) m pos below keep used =
    restore-InUse uuid p low high pos below m used u now
call-InUse uuid p low high (call_delete u) m pos below keep used =
    delete_session-InUse uuid p low high pos below m used u
call-InUse uuid p low high (call_return u) m pos below keep used =
    give_back-InUse uuid p low high pos below m used u keep

-- A session whose use count is above zero is safe from Delete: after any list of New, Restore, Delete and Return calls with no Return of it, the map still has the same session under its id, and its count has not gone down nor grown by more than the calls made. The count must have room for the calls below 2 ^ 64, where it would wrap.
pub after_calls-InUse :
    (uuid : Bytes) (p low high : ℕ) (calls : List Call) (m : MemSessions)
    → 0 < low
    → high + length calls < 2 ^ 64
    → AllKeep uuid calls
    → InUse uuid p low high m
    → InUse uuid p low (high + length calls) (after_calls calls m)
unfolding after_calls
after_calls-InUse uuid p low high [] m pos below keep used = (used.0, used.1, omega arith)
after_calls-InUse uuid p low high (c ∷ calls) m pos below (keep, keeps) used =
    let next = call-InUse uuid p low high c m pos (omega arith) keep used in
    let r =
      after_calls-InUse uuid p low (suc high) calls (after_call c m) pos (omega arith) keeps next in
    (r.0, r.1, omega arith)
