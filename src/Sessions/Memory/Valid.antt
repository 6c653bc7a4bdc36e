-- ===== src/Sessions/Memory/Valid.antt =====
-- The invariant of MemSessions, and that each call keeps it.
use droute.Prelude.{
  ℕ, ◌+◌, ◌<◌, ◌≡◌, ◌⊎◌, inl, inr, none, some, List, [], ◌∷◌, ltb, arith, Bool-cases, Option-cases,
  Bytes, bytes_discrete, find, insert, find-insert, find-delete,
}
use droute.Sessions.Ordered.Sorted.{
  IsSorted, has_key, ordered_delete, set_item_lem, del_key_lem, ordered_insert-IsSorted,
  ordered_delete-IsSorted,
}
use droute.Sessions.Memory.{
  MemSessions, new_mem_sessions, assign, new, restore, delete_session, give_back, signal_waiting,
  session_count, Call, call_new, call_restore, call_delete, call_return, after_call, after_calls,
}
use droute.Sessions.Memory.Members.{Mem, insert-Mem, delete-Mem, delete-other, IsSorted-agree}

-- The order is sorted by lastSeen, its sessions are those that the map has for their ids, and the
-- map has each session under its own id.
pub record Valid (m : MemSessions) : Type 0 where
  pub sorted : IsSorted m.last_seen m.o
  pub listed : (p : ℕ) → Mem p m.o → find bytes_discrete (m.owner p) m.sessions ≡ some p
  pub owned :
      (u : Bytes) (p : ℕ)
      → find bytes_discrete u m.sessions ≡ some p
      → (m.owner p ≡ u) × (p < m.next)

pub new_mem_sessions-Valid : (ttl : ℕ) → Valid (new_mem_sessions ttl)
unfolding find
new_mem_sessions-Valid ttl = record {
  sorted = tt;
  listed = λ p h. elim h [ ];
  owned = λ u p h. ground arith;
}

module _ (m : MemSessions) (valid : Valid m) where
  pub member_bound : (p : ℕ) → Mem p m.o → p < m.next
  member_bound p h = (valid.owned (m.owner p) p (valid.listed p h)).1

  -- The order as it is while a new session is made
  pub made-IsSorted : (t : ℕ) → IsSorted (assign m.next t m.last_seen) m.o
  made-IsSorted t =
      IsSorted-agree m.last_seen (assign m.next t m.last_seen) m.o
        (λ p h. let lt = member_bound p h in ground arith) valid.sorted

  in_new :
      (uuid : Bytes) (now p : ℕ)
      → find bytes_discrete uuid m.sessions ≡ none
      → (m.next ≡ p) ⊎ Mem p m.o
      → find bytes_discrete
          (assign m.next uuid m.owner p)
          (insert bytes_discrete uuid m.next m.sessions)
        ≡ some p
  in_new uuid now p absent (inl e) =
      ground (arith, find-insert bytes_discrete uuid uuid m.next m.sessions)
  in_new uuid now p absent (inr h) =
      let lt = member_bound p h in
      let there = valid.listed p h in
      ground (arith, find-insert bytes_discrete uuid (m.owner p) m.next m.sessions)

  pub new-Valid : (uuid : Bytes) (now : ℕ) → Valid (new uuid now m).0
  unfolding new
  new-Valid uuid now =
      let key = assign m.next (now + m.ttl) m.last_seen in
      let sorted = made-IsSorted (now + m.ttl) in
      let set = set_item_lem key m.next m.o sorted in
      elim (Option-cases (find bytes_discrete uuid m.sessions)) [
        | inr (p, found) ↦ rw (found, new) valid
        | inl absent ↦ elim (Bool-cases (has_key key (key m.next) m.o)) [
          | inl clash ↦
              rw (absent, new, set, clash)
                (record {
                  sorted = sorted;
                  listed = λ p h. let lt = member_bound p h in ground (arith, valid.listed p h);
                  owned = λ u p h. ground (arith, valid.owned u p h);
                })
          | inr free ↦
              rw (absent, new, set, free)
                (record {
                  sorted = ordered_insert-IsSorted key m.next m.o sorted free;
                  listed = λ p h. in_new uuid now p absent (insert-Mem key m.next p m.o h);
                  owned = λ u p h.
                      ground (
                        arith,
                        find-insert bytes_discrete uuid u m.next m.sessions,
                        valid.owned u p,
                      );
                })
        ]
      ]

  -- The order while a session that was taken out is put back
  pub moved-IsSorted :
      (s t : ℕ) → IsSorted (assign s t m.last_seen) (ordered_delete m.last_seen (m.last_seen s) m.o)
  moved-IsSorted s t =
      IsSorted-agree m.last_seen (assign s t m.last_seen)
        (ordered_delete m.last_seen (m.last_seen s) m.o)
        (λ p h.
          let other = delete-other m.last_seen (m.last_seen s) p m.o valid.sorted h in ground arith)
        (ordered_delete-IsSorted m.last_seen (m.last_seen s) m.o valid.sorted)

  pub restore-Valid : (uuid : Bytes) (now : ℕ) → Valid (restore uuid now m).0
  unfolding restore
  restore-Valid uuid now = elim (Option-cases (find bytes_discrete uuid m.sessions)) [
    | inl absent ↦ rw (absent, restore) valid
    | inr (s, found) ↦
        let key = assign s (now + m.ttl) m.last_seen in
        let taken = ordered_delete m.last_seen (m.last_seen s) m.o in
        let del = del_key_lem m.last_seen (m.last_seen s) m.o valid.sorted in
        let sorted = moved-IsSorted s (now + m.ttl) in
        let set = set_item_lem key s taken sorted in
        let own = valid.owned uuid s found in
        elim (Bool-cases (has_key m.last_seen (m.last_seen s) m.o)) [
          | inr lost ↦ rw (found, restore, del, lost) valid
          | inl there ↦ elim (Bool-cases (has_key key (key s) taken)) [
            | inl clash ↦
                rw (found, restore, del, there, set, clash)
                  (record {
                    sorted = sorted;
                    listed = λ p h. valid.listed p (delete-Mem m.last_seen (m.last_seen s) p m.o h);
                    owned = valid.owned;
                  })
            | inr free ↦
                rw (found, restore, del, there, set, free)
                  (record {
                    sorted = ordered_insert-IsSorted key s taken sorted free;
                    listed = λ p h. elim (insert-Mem key s p taken h) [
                      | inl e ↦ ground arith
                      | inr h ↦ valid.listed p (delete-Mem m.last_seen (m.last_seen s) p m.o h)
                    ];
                    owned = valid.owned;
                  })
          ]
        ]
  ]

  pub delete_session-Valid : (uuid : Bytes) → Valid (delete_session uuid m).0
  unfolding delete_session
  delete_session-Valid uuid = elim (Option-cases (find bytes_discrete uuid m.sessions)) [
    | inl absent ↦ rw (absent, delete_session) valid
    | inr (s, found) ↦
        let del = del_key_lem m.last_seen (m.last_seen s) m.o valid.sorted in
        elim (Bool-cases (ltb 0 (session_count uuid m.count))) [
          | inl busy ↦ rw (found, delete_session, busy) valid
          | inr idle ↦ elim (Bool-cases (has_key m.last_seen (m.last_seen s) m.o)) [
            | inr lost ↦ rw (found, delete_session, idle, del, lost) valid
            | inl there ↦
                rw (found, delete_session, idle, del, there)
                  (record {
                    sorted = ordered_delete-IsSorted m.last_seen (m.last_seen s) m.o valid.sorted;
                    listed = λ p h.
                        let other = delete-other m.last_seen (m.last_seen s) p m.o valid.sorted h in
                        let known =
                          valid.listed p (delete-Mem m.last_seen (m.last_seen s) p m.o h) in
                        ground (arith, find-delete bytes_discrete uuid (m.owner p) m.sessions);
                    owned = λ u p h.
                        ground
                          (arith, find-delete bytes_discrete uuid u m.sessions, valid.owned u p);
                  })
          ]
        ]
  ]

  pub give_back-Valid : (uuid : Bytes) → Valid (give_back uuid m).0
  unfolding give_back signal_waiting
  give_back-Valid uuid = elim (Option-cases (find bytes_discrete uuid m.sessions)) [
    | inl absent ↦ rw (absent, give_back) valid
    | inr (s, found) ↦ elim (Option-cases (find bytes_discrete uuid m.waiting)) [
      | inl none_waits ↦
          rw (found, give_back, none_waits, signal_waiting)
            (record { sorted = valid.sorted; listed = valid.listed; owned = valid.owned })
      | inr (chs, wait) ↦
          rw (found, give_back, wait, signal_waiting)
            (record { sorted = valid.sorted; listed = valid.listed; owned = valid.owned })
    ]
  ]

pub after_call-Valid : (c : Call) (m : MemSessions) → Valid m → Valid (after_call c m)
unfolding after_call
after_call-Valid (call_new uuid now) m valid = new-Valid m valid uuid now
after_call-Valid (call_restore uuid now) m valid = restore-Valid m valid uuid now
after_call-Valid (call_delete uuid) m valid = delete_session-Valid m valid uuid
after_call-Valid (call_return uuid) m valid = give_back-Valid m valid uuid

-- If the invariant holds of a MemSessions, as of a new one, it holds after any list of New, Restore, Delete and Return calls at any times: the order is strictly sorted by lastSeen, every session in the order is the one that the map holds under its id, and the map holds every session under its own id.
pub after_calls-Valid :
    (calls : List Call) (m : MemSessions) → Valid m → Valid (after_calls calls m)
unfolding after_calls
after_calls-Valid [] m valid = valid
after_calls-Valid (c ∷ calls) m valid =
    after_calls-Valid calls (after_call c m) (after_call-Valid c m valid)
