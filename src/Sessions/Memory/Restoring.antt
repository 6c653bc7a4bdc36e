-- ===== src/Sessions/Memory/Restoring.antt =====
-- What Restore does to a session that stands in the order.
use droute.Prelude.{
  ℕ, ◌+◌, ◌≡◌, ◌≢◌, refl, ◌⊎◌, inl, inr, true, some, List, [], ◌∷◌, ◌==◌, arith, Bool-cases, Bytes,
  bytes_discrete, find,
}
use droute.Sessions.Ordered.Sorted.{has_key, ordered_delete, set_item_lem, del_key_lem}
use droute.Sessions.Memory.{MemSessions, assign, session_inc, restore, done, fail, item_found}
use droute.Sessions.Memory.Members.{
  Mem, Mem-insert, delete-Mem, delete-other, has_key-Mem, Mem-delete, no_key-Mem,
}
use droute.Sessions.Memory.Valid.{Valid, moved-IsSorted}

has_key-witness :
    (key : ℕ → ℕ) (x : ℕ) (o : List ℕ) → has_key key x o ≡ true → (q : ℕ) × Mem q o × (key q ≡ x)
unfolding has_key
has_key-witness key x [] h = ground arith
has_key-witness key x (a ∷ o) h = elim (Bool-cases (key a == x)) [
  | inl here ↦ (a, inl refl, ground arith)
  | inr other ↦ let (q, there, e) = has_key-witness key x o (ground arith) in (q, inr there, e)
]

-- The order has room for the time `t`: no session but `s` has it.
abbrev pub IsFree : MemSessions → ℕ → ℕ → Type 0
IsFree m s t = (q : ℕ) → Mem q m.o → q ≢ s → m.last_seen q ≢ t

-- Another session has it.
abbrev pub IsTaken : MemSessions → ℕ → ℕ → Type 0
IsTaken m s t = (q : ℕ) × Mem q m.o × (q ≢ s) × (m.last_seen q ≡ t)

-- In a valid state, Restore of a session that is in the order at a time when no other session has the new expiry time succeeds: the session is in the order with that time and its count is raised. If another session has that very time, Restore answers "item found", and the session, still in the map, has left the order.
pub restore_cases :
    (m : MemSessions) (uuid : Bytes) (s now : ℕ)
    → Valid m
    → find bytes_discrete uuid m.sessions ≡ some s
    → Mem s m.o
    → (IsFree m s (now + m.ttl)
        × ((restore uuid now m).1 ≡ done s)
        × Mem s (restore uuid now m).0.o
        × ((restore uuid now m).0.last_seen s ≡ now + m.ttl)
        × ((restore uuid now m).0.count ≡ session_inc uuid m.count))
      ⊎ (IsTaken m s (now + m.ttl)
          × ((restore uuid now m).1 ≡ fail item_found)
          × (find bytes_discrete uuid (restore uuid now m).0.sessions ≡ some s)
          × ¬ Mem s (restore uuid now m).0.o)
unfolding restore
restore_cases m uuid s now valid found there =
    let t = now + m.ttl in
    let key = assign s t m.last_seen in
    let taken = ordered_delete m.last_seen (m.last_seen s) m.o in
    let del = del_key_lem m.last_seen (m.last_seen s) m.o valid.sorted in
    let set = set_item_lem key s taken (moved-IsSorted m valid s t) in
    let held = has_key-Mem m.last_seen s m.o there in
    elim (Bool-cases (has_key key (key s) taken)) [
      | inr free ↦ inl (
        λ q hq other.
            let left = Mem-delete m.last_seen s q m.o valid.sorted there hq other in
            let differs = no_key-Mem key (key s) taken free q left in ground arith,
        rw (found, restore, del, held, set, free) refl,
        rw (found, restore, del, held, set, free) (Mem-insert key s taken),
        rw (found, restore, del, held, set, free) (ground arith),
        rw (found, restore, del, held, set, free) refl,
      )
      | inl clash ↦
          let (q, hq, e) = has_key-witness key (key s) taken clash in
          let other = delete-other m.last_seen (m.last_seen s) q m.o valid.sorted hq in
          inr (
            (q, delete-Mem m.last_seen (m.last_seen s) q m.o hq, ground arith, ground arith),
            rw (found, restore, del, held, set, clash) refl,
            rw (found, restore, del, held, set, clash) found,
            rw (found, restore, del, held, set, clash)
                (λ h. delete-other m.last_seen (m.last_seen s) s m.o valid.sorted h refl),
          )
    ]
