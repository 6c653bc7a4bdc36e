-- ===== src/Router/RoundRobin/Choice.antt =====
-- Which entry Next and Remove work on, and what they do to it.
use droute.Prelude.{
  Listed, Visits, bytes_discrete, ◌≡◌, refl, ◌∙◌, ◌⊎◌, inl, inr, Bool, true, false, ◌||◌, none,
  some, [], ◌∷◌, Bytes, ite, find, insert, arith, Option-cases, Bool-cases,
}
use droute.Router.Match.{match_wildcard, match_named_param}
use droute.Router.RoundRobin.{
  Ips, Paths, Table, norm_path, next_ip, remove_ip, first_match, find_path, next, remove,
}
use droute.Router.RoundRobin.Table.{entry, entry-insert}

abbrev pub matches : Bytes → Bytes → Bool
matches path k = match_wildcard path k || match_named_param path k

-- An entry that the request's path picks: the one stored under the path itself, or, where there is
-- none, one whose key matches the path.
pub record Picked (method path k : Bytes) (p : Ips) (rr : Table) : Type 0 where
  pub held : entry method k rr ≡ some p
  pub answers :
      (k ≡ norm_path path)
      ⊎ ((entry method (norm_path path) rr ≡ none) × (matches (norm_path path) k ≡ true))

-- No entry of the method is stored under the path or matches it.
abbrev pub Missed : Bytes → Bytes → Table → Type 0
Missed method path rr =
    (entry method (norm_path path) rr ≡ none)
    × ((k : Bytes) (p : Ips) → entry method k rr ≡ some p → matches (norm_path path) k ≡ false)

-- The table differs from the old one in one entry at most.
abbrev pub Updated : Bytes → Bytes → Ips → Table → Table → Type 0
Updated method k p rr rr' =
    (qm qk : Bytes)
    → entry qm qk rr'
      ≡ ite (bytes_discrete method qm) (ite (bytes_discrete k qk) (some p) (entry qm qk rr))
          (entry qm qk rr)

pub entry-insert_found :
    (method k qm qk : Bytes) (p : Ips) (m : Paths) (rr : Table)
    → find bytes_discrete method rr ≡ some m
    → entry qm qk (insert bytes_discrete method (insert bytes_discrete k p m) rr)
      ≡ ite
          (bytes_discrete method qm)
          (ite (bytes_discrete k qk) (some p) (entry qm qk rr))
          (entry qm qk rr)
unfolding entry
entry-insert_found method k qm qk p m rr found =
    entry-insert method k qm qk p m rr ∙ (elim (bytes_discrete method qm) [
      | yes same ↦ rw (← same, found) refl
      | no other ↦ ground arith
    ])

first_match_sound :
    (path k : Bytes) (p : Ips) (l : Paths)
    → first_match path l ≡ some (k, p)
    → Listed k p l × (matches path k ≡ true)
unfolding first_match
first_match_sound path k p [] h = cc
first_match_sound path k p ((j, q) ∷ l) h = elim (Bool-cases (matches path j)) [
  | inl yes_match ↦ (inl (ground arith, ground arith), ground arith)
  | inr no_match ↦ let (there, m) = first_match_sound path k p l (ground arith) in (inr there, m)
]

first_match-none :
    (path k : Bytes) (p : Ips) (l : Paths)
    → first_match path l ≡ none
    → Listed k p l
    → matches path k ≡ false
unfolding first_match
first_match-none path k p [] h here = elim here [ ]
first_match-none path k p ((j, q) ∷ l) h here = ground (arith, first_match-none path k p l)

module _ (visit : Paths → Paths) (visits : Visits bytes_discrete visit) where
  find_path_sound :
      (path k : Bytes) (p : Ips) (m : Paths)
      → find_path visit path m ≡ some (k, p)
      → (find bytes_discrete k m ≡ some p)
        × ((k ≡ path) ⊎ ((find bytes_discrete path m ≡ none) × (matches path k ≡ true)))
  unfolding find_path
  find_path_sound path k p m h = elim (Option-cases (find bytes_discrete path m)) [
    | inl absent ↦
        let (there, ok) = first_match_sound path k p (visit m) (rw (absent, find_path) at h) in
        ((visits.listed m k p).0 there, inr (absent, ok))
    | inr (q, e) ↦ let same : k ≡ path = ground arith in (rw same (ground arith), inl same)
  ]

  find_path-none :
      (path k : Bytes) (p : Ips) (m : Paths)
      → find_path visit path m ≡ none
      → (find bytes_discrete path m ≡ none)
        × (find bytes_discrete k m ≡ some p → matches path k ≡ false)
  unfolding find_path
  find_path-none path k p m h = elim (Option-cases (find bytes_discrete path m)) [
    | inl absent ↦ (
      absent,
      λ held. first_match-none path k p (visit m) (ground arith) ((visits.listed m k p).1 held),
    )
    | inr (q, e) ↦ absurd (ground arith)
  ]

  -- What the two lookups that Next and Remove share can give.
  abbrev NoneFound : Bytes → Bytes → Table → Type 0
  NoneFound method path rr =
      (find bytes_discrete method rr ≡ none)
      ⊎ ((m : Paths) × (find bytes_discrete method rr ≡ some m)
          × (find_path visit (norm_path path) m ≡ none))

  abbrev Found : Bytes → Bytes → Table → Paths → Bytes → Ips → Type 0
  Found method path rr m k p =
      (find bytes_discrete method rr ≡ some m)
      × (find_path visit (norm_path path) m ≡ some (k, p))
      × Picked method path k p rr
      × ((q : Ips)
          → Updated method k q rr (insert bytes_discrete method (insert bytes_discrete k q m) rr))

  Found-intro :
      (method path : Bytes) (rr : Table) (m : Paths) (k : Bytes) (p : Ips)
      → find bytes_discrete method rr ≡ some m
      → find_path visit (norm_path path) m ≡ some (k, p)
      → Found method path rr m k p
  unfolding entry
  Found-intro method path rr m k p found e =
      let (held, answers) = find_path_sound (norm_path path) k p m e in
      (
        found,
        e,
        record { held = rw found held; answers = rw found answers },
        λ q qm qk. entry-insert_found method k qm qk q m rr found,
      )

  lookup_cases :
      (method path : Bytes) (rr : Table)
      → (Missed method path rr × NoneFound method path rr)
        ⊎ ((m : Paths) × (k : Bytes) × (p : Ips) × Found method path rr m k p)
  unfolding entry
  lookup_cases method path rr = elim (Option-cases (find bytes_discrete method rr)) [
    | inl absent ↦ inl ((ground arith, λ k p e. absurd (ground arith)), inl absent)
    | inr (m, found) ↦ elim (Option-cases (find_path visit (norm_path path) m)) [
      | inl nothing ↦ inl (
        (
          rw found
              (find_path-none (norm_path path) [] (record { ips = []; actual = 0 }) m nothing).0,
          λ k p e. (find_path-none (norm_path path) k p m nothing).1 (rw found at e),
        ),
        inr (m, found, nothing),
      )
      | inr ((k, p), e) ↦ inr (m, k, p, Found-intro method path rr m k p found e)
    ]
  ]

  -- Next answers "" and changes nothing when no entry is picked. Otherwise it takes the address of
  -- a picked entry, advances that entry and leaves every other one alone.
  pub next_cases :
      (method path : Bytes) (rr : Table)
      → (Missed method path rr × (next visit method path rr ≡ (rr, [])))
        ⊎ ((k : Bytes) × (p : Ips) × Picked method path k p rr
            × ((next visit method path rr).1 ≡ (next_ip p).1)
            × Updated method k (next_ip p).0 rr (next visit method path rr).0)
  unfolding next
  next_cases method path rr = elim (lookup_cases method path rr) [
    | inl (missed, none_found) ↦ inl (missed, ground arith)
    | inr (m, k, p, (found, e, picked, updated)) ↦ inr (
      k,
      p,
      picked,
      rw (found, next, e, next) refl,
      rw (found, next, e, next) (updated (next_ip p).0),
    )
  ]

  -- Remove changes nothing when no entry is picked. Otherwise it takes the address out of a picked
  -- entry as `remove_ip` does and leaves every other entry alone.
  pub remove_cases :
      (method path target : Bytes) (rr : Table)
      → (Missed method path rr × (remove visit method path target rr ≡ rr))
        ⊎ ((k : Bytes) × (p : Ips) × Picked method path k p rr
            × Updated method k (remove_ip target p) rr (remove visit method path target rr))
  unfolding remove
  remove_cases method path target rr = elim (lookup_cases method path rr) [
    | inl (missed, none_found) ↦ inl (missed, ground arith)
    | inr (m, k, p, (found, e, picked, updated)) ↦
        inr (k, p, picked, rw (found, remove, e, remove) (updated (remove_ip target p)))
  ]
