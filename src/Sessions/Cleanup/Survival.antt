-- ===== src/Sessions/Cleanup/Survival.antt =====
-- Which sessions a clean-up leaves.
use droute.Prelude.{
  ℕ, ◌+◌, ◌≤◌, ◌<◌, ◌≡◌, refl, ◌⊎◌, inl, inr, none, some, List, [], ◌∷◌, Bytes, bytes_discrete, Map,
  find, find-delete, arith, Option-cases,
}
use droute.Sessions.Memory.{MemSessions, session_count}
use droute.Sessions.Memory.Members.{Mem}
use droute.Sessions.Memory.Valid.{Valid}
use droute.Sessions.Cleanup.{
  Transaction, iter_items, iter, del_session, expire, commit_items, cleanup_sessions,
}

module _ (m : MemSessions) (clock : ℕ → ℕ) (u : Bytes) (p : ℕ) where
  -- The session is in use or has expired at every reading of the clock.
  abbrev pub IsSpared : Type 0
  IsSpared = (0 < session_count u m.count) ⊎ ((i : ℕ) → m.last_seen p ≤ clock i)

  expire-find :
      (i s : ℕ) (sessions : Map Bytes ℕ) (tx : Transaction)
      → IsSpared
      → (m.owner s ≡ u → s ≡ p)
      → find bytes_discrete u sessions ≡ some p
      → ((expire m clock i s (sessions, tx)).1 ≡ none)
        × (find bytes_discrete u (expire m clock i s (sessions, tx)).0.0 ≡ some p)
  unfolding expire del_session
  expire-find i s sessions tx (inl used) same h =
      ground (arith, find-delete bytes_discrete (m.owner s) u sessions)
  expire-find i s sessions tx (inr late) same h =
      ground (arith, find-delete bytes_discrete (m.owner s) u sessions, late i)

  iter_items-find :
      (i : ℕ) (items : List ℕ) (sessions : Map Bytes ℕ) (tx : Transaction)
      → IsSpared
      → ((s : ℕ) → Mem s items → m.owner s ≡ u → s ≡ p)
      → find bytes_discrete u sessions ≡ some p
      → ((iter_items (expire m clock) i items (sessions, tx)).1 ≡ none)
        × (find bytes_discrete u (iter_items (expire m clock) i items (sessions, tx)).0.0 ≡ some p)
  unfolding iter_items
  iter_items-find i [] sessions tx spared same h = (refl, h)
  iter_items-find i (s ∷ items) sessions tx spared same h =
      let t = expire m clock i s (sessions, tx) in
      let (ok, held) = expire-find i s sessions tx spared (same s (inl refl)) h in
      rw (ok, iter_items)
        (iter_items-find (i + 1) items t.0.0 t.0.1 spared (λ q g. same q (inr g)) held)

-- In a valid state, a clean-up takes no session out of the map that is in use, and none that has expired: a session whose time lastSeen is not after any reading of the clock is still in the map.
pub cleanup_sessions-find :
    (m : MemSessions) (clock : ℕ → ℕ) (visit : Transaction → Transaction) (u : Bytes) (p : ℕ)
    → Valid m
    → IsSpared m clock u p
    → find bytes_discrete u m.sessions ≡ some p
    → find bytes_discrete u (cleanup_sessions visit clock m).0 ≡ some p
unfolding cleanup_sessions iter
cleanup_sessions-find m clock visit u p valid spared h =
    let (ok, held) =
      iter_items-find m clock u p 0 m.o m.sessions [] spared
        (λ s g e. let there = valid.listed s g in ground arith) h in
    elim (Option-cases (
      commit_items m.last_seen (visit (iter_items (expire m clock) 0 m.o (m.sessions, [])).0.1)
        m.o)) [
          | inl lost ↦ rw (ok, lost, iter, cleanup_sessions) held
          | inr (o, done) ↦ rw (ok, done, iter, cleanup_sessions) held
        ]
