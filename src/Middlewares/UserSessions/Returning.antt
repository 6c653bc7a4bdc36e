-- ===== src/Middlewares/UserSessions/Returning.antt =====
-- The handler gives the session back, whatever happens.
use droute.Prelude.{
  ℕ, ◌+◌, ◌^◌, ◌<◌, ◌≡◌, refl, sym, ap, ◌∙◌, inl, inr, some, Bytes, bytes_discrete, Map, find,
  find-insert, arith, Option-cases,
}
use droute.Http.{HttpWriter}
use droute.Sessions.Ordered.{set_item, del_key}
use droute.Sessions.Memory.{
  MemSessions, assign, sess_found, sess_not_found, sess_in_use, sess_expired, item_found, not_found,
  Answer, done, fail, session_count, session_inc, session_dec, signal_waiting, new, restore,
  give_back,
}
use droute.Sessions.Memory.Valid.{Valid}
use droute.Sessions.Memory.Keeping.{session_count-session_inc, session_count-session_dec}
use droute.Middlewares.UserSessions.{mem_store, run_session, created, restored, with_uuid}

-- A session that was handed out stands under its id, with a count raised by one; an error leaves
-- the counts alone.
abbrev Counted : Bytes → MemSessions → MemSessions × Answer ℕ → Type 0
Counted u m (r, done p) =
    (find bytes_discrete u r.sessions ≡ some p)
    × (r.owner p ≡ u)
    × (r.count ≡ session_inc u m.count)
Counted u m (r, fail e) = r.count ≡ m.count

new-Counted : (u : Bytes) (now : ℕ) (m : MemSessions) → Counted u m (new u now m)
unfolding new
new-Counted u now m = elim (Option-cases (find bytes_discrete u m.sessions)) [
  | inr (p, found) ↦ rw (found, new) refl
  | inl absent ↦
      elim (Option-cases (set_item (assign m.next (now + m.ttl) m.last_seen) m.next m.o)) [
        | inl clash ↦ rw (absent, clash, new) refl
        | inr (o, set) ↦
            rw (absent, set, new)
              (ground (arith, find-insert bytes_discrete u u m.next m.sessions), ground arith, refl)
      ]
]

restore-Counted : (u : Bytes) (now : ℕ) (m : MemSessions) → Valid m → Counted u m (restore u now m)
unfolding restore
restore-Counted u now m valid = elim (Option-cases (find bytes_discrete u m.sessions)) [
  | inl absent ↦ rw (absent, restore) refl
  | inr (p, found) ↦ elim (Option-cases (del_key m.last_seen (m.last_seen p) m.o)) [
    | inl lost ↦ rw (found, lost, restore) refl
    | inr (o, taken) ↦ elim (Option-cases (set_item (assign p (now + m.ttl) m.last_seen) p o)) [
      | inl clash ↦ rw (found, taken, clash, restore) refl
      | inr (r, set) ↦ rw (found, taken, set, restore) (found, (valid.owned u p found).0, refl)
    ]
  ]
]

give_back-count :
    (u : Bytes) (p : ℕ) (r : MemSessions)
    → find bytes_discrete u r.sessions ≡ some p
    → (give_back u r).0.count ≡ session_dec u r.count
unfolding give_back signal_waiting
give_back-count u p r found = elim (Option-cases (find bytes_discrete u r.waiting)) [
  | inl idle ↦ rw (found, idle, give_back, signal_waiting) refl
  | inr (chs, wait) ↦ rw (found, wait, give_back, signal_waiting) refl
]

used_once :
    (u q : Bytes) (count : Map Bytes ℕ)
    → session_count u count + 1 < 2 ^ 64
    → session_count q (session_dec u (session_inc u count)) ≡ session_count q count
used_once u q count room = ground (
  arith,
  session_count-session_dec u q (session_inc u count),
  session_count-session_inc u u count,
  session_count-session_inc u q count,
)

module _ {S Q : Type 0} (at_restore at_new : ℕ) (W : HttpWriter S) (err_body : ℕ → Bytes → Bytes)
    (push : Bytes → Bytes → Bytes)
    (handler : ℕ → Bytes → Q → MemSessions × S → MemSessions × S) where
  -- The handler itself makes no call on the sessions.
  abbrev pub IsNeutral : Type 0
  IsNeutral =
      (p : ℕ) (u : Bytes) (req : Q) (m : MemSessions) (s : S) → (handler p u req (m, s)).0 ≡ m

  created-count :
      (u q : Bytes) (req : Q) (s : S) (m : MemSessions) (r : MemSessions × Answer ℕ)
      → IsNeutral
      → session_count u m.count + 1 < 2 ^ 64
      → Counted u m r
      → session_count q
          (created (mem_store at_restore at_new) W err_body push handler u req s r).0.count
        ≡ session_count q m.count
  unfolding created run_session
  created-count u q req s m (r, fail e) neutral room same = ap (session_count q) same
  created-count u q req s m (r, done p) neutral room (held, own, more) =
      rw (neutral p u req r s, own, give_back-count u p r held, more) (used_once u q m.count room)

  restored-count :
      (u q : Bytes) (req : Q) (s : S) (m : MemSessions) (r : MemSessions × Answer ℕ)
      → IsNeutral
      → session_count u m.count + 1 < 2 ^ 64
      → Counted u m r
      → session_count q
          (restored (mem_store at_restore at_new) W err_body push handler u req s r).0.count
        ≡ session_count q m.count
  unfolding restored run_session
  restored-count u q req s m (r, done p) neutral room (held, own, more) =
      rw (neutral p u req r s, own, give_back-count u p r held, more) (used_once u q m.count room)
  restored-count u q req s m (r, fail sess_not_found) neutral room same =
      created-count u q req s r (new u at_new r) neutral (rw (sym same) at room)
        (new-Counted u at_new r)
      ∙ ap (session_count q) same
  restored-count u q req s m (r, fail sess_found) neutral room same = ap (session_count q) same
  restored-count u q req s m (r, fail sess_in_use) neutral room same = ap (session_count q) same
  restored-count u q req s m (r, fail sess_expired) neutral room same = ap (session_count q) same
  restored-count u q req s m (r, fail item_found) neutral room same = ap (session_count q) same
  restored-count u q req s m (r, fail not_found) neutral room same = ap (session_count q) same

  -- Over a valid MemSessions with room in the count of the request's session, a request whose handler makes no call on the sessions leaves every use count as it was: the session that Restore or New hands out is given back, and a request that ends in an error hands out none.
  pub with_uuid-count :
      (u q : Bytes) (req : Q) (s : S) (m : MemSessions)
      → Valid m
      → IsNeutral
      → session_count u m.count + 1 < 2 ^ 64
      → session_count q
          (with_uuid (mem_store at_restore at_new) W err_body push handler u req (m, s)).0.count
        ≡ session_count q m.count
  unfolding with_uuid
  with_uuid-count u q req s m valid neutral room =
      restored-count u q req s m (restore u at_restore m) neutral room
        (restore-Counted u at_restore m valid)
