-- ===== src/Router/RoundRobin/Origins.antt =====
-- Where the addresses in the balancer's table, and the answers of Next, come from.
use droute.Prelude.{
  Visits, bytes_discrete, ℕ, zero, suc, ◌<◌, ◌≡◌, refl, ◌∙◌, ap, ◌⊎◌, inl, inr, true, some, List,
  [], ◌∷◌, Bytes, arith, leb, if◌then◌else◌, Bool-cases, Option-cases, length, get_or, find,
}
use droute.Router.RoundRobin.{
  Ips, Paths, Table, norm_path, ips_or_new, contains, with_address, add_addrs, next_ip, remove_ip,
  next,
}
use droute.Router.RoundRobin.Table.{entry, entry-add_addrs}
use droute.Router.RoundRobin.Choice.{matches, Updated, next_cases, remove_cases}
use droute.Router.RoundRobin.History.{
  Call, add_call, next_call, remove_call, step, Made, made_new, made_step, WasAdded, AllAdded,
  IsSound, AllSound, AllAdded-append, IsSound-cons, remove_ip-IsSound, Distinct-concat,
}

next_ip-ips : (p : Ips) → (next_ip p).0.ips ≡ p.ips
unfolding next_ip
next_ip-ips p = ground arith

ips_or_new-IsSound :
    (method k : Bytes) (calls : List Call) (rr : Table)
    → AllSound calls rr
    → IsSound method k calls (ips_or_new (entry method k rr)).ips
ips_or_new-IsSound method k calls rr all = elim (Option-cases (entry method k rr)) [
  | inl e ↦ rw e (record { distinct = tt; added = tt })
  | inr (p, e) ↦ rw e (all method k p e)
]

with_address-IsSound :
    (method path ip : Bytes) (calls : List Call) (p : Ips)
    → IsSound method (norm_path path) calls p.ips
    → IsSound method (norm_path path) (add_call method path ip ∷ calls) (with_address ip p).ips
with_address-IsSound method path ip calls p s =
    let kept = IsSound-cons method (norm_path path) (add_call method path ip) calls p.ips s in
    elim (Bool-cases (contains ip p.ips)) [
      | inl old ↦ rw old kept
      | inr new ↦ rw new (record {
        distinct = Distinct-concat ip p.ips s.distinct new;
        added =
            AllAdded-append method (norm_path path) (add_call method path ip ∷ calls) p.ips
              (ip ∷ []) kept.added (inl (refl, refl, refl), tt);
      })
    ]

AllSound-Updated :
    (c : Call) (calls : List Call) (method k : Bytes) (p : Ips) (rr rr' : Table)
    → AllSound calls rr
    → Updated method k p rr rr'
    → IsSound method k (c ∷ calls) p.ips
    → AllSound (c ∷ calls) rr'
AllSound-Updated c calls method k p rr rr' all updated s qm qk q e =
    elim (bytes_discrete method qm) [
      | yes same ↦ elim (bytes_discrete k qk) [
        | yes same_k ↦
            let stored : p ≡ q = ground (arith, updated qm qk) in rw (← same, ← same_k, ← stored) s
        | no other ↦ kept (ground (arith, updated qm qk))
      ]
      | no other ↦ kept (ground (arith, updated qm qk))
    ]
  where
    kept : entry qm qk rr ≡ some q → IsSound qm qk (c ∷ calls) q.ips
    kept old = IsSound-cons qm qk c calls q.ips (all qm qk q old)

AllSound-cons :
    (c : Call) (calls : List Call) (rr rr' : Table)
    → AllSound calls rr
    → rr' ≡ rr
    → AllSound (c ∷ calls) rr'
AllSound-cons c calls rr rr' all same qm qk q e =
    IsSound-cons qm qk c calls q.ips (all qm qk q (rw same at e))

get_or-WasAdded :
    (method k : Bytes) (calls : List Call) (xs : List Bytes) (i : ℕ)
    → i < length xs
    → AllAdded method k calls xs
    → WasAdded method k (get_or xs i []) calls
get_or-WasAdded method k calls [] i h all = absurd (omega arith)
get_or-WasAdded method k calls (x ∷ xs) zero h (a, all) = a
get_or-WasAdded method k calls (x ∷ xs) (suc i) h (a, all) =
    get_or-WasAdded method k calls xs i (omega arith) all

next_ip-cases :
    (p : Ips)
    → ((next_ip p).1 ≡ []) ⊎ ((i : ℕ) × (i < length p.ips) × ((next_ip p).1 ≡ get_or p.ips i []))
unfolding next_ip
next_ip-cases p = elim (Bool-cases (leb (length p.ips) 0)) [
  | inl none_left ↦ inl (rw none_left refl)
  | inr some_left ↦
      inr (if leb (length p.ips) p.actual then 0 else p.actual, ground arith, rw some_left refl)
]

module _ (visit : Paths → Paths) (visits : Visits bytes_discrete visit) where
  step-AllSound :
      (c : Call) (calls : List Call) (rr : Table)
      → AllSound calls rr
      → AllSound (c ∷ calls) (step visit c rr)
  unfolding step
  step-AllSound (add_call method path ip) calls rr all =
      AllSound-Updated (add_call method path ip) calls method (norm_path path)
        (with_address ip (ips_or_new (entry method (norm_path path) rr))) rr
        (add_addrs method path ip rr) all (λ qm qk. entry-add_addrs method path ip qm qk rr)
        (with_address-IsSound method path ip calls (ips_or_new (entry method (norm_path path) rr))
          (ips_or_new-IsSound method (norm_path path) calls rr all))
  step-AllSound (next_call method path) calls rr all =
      elim (next_cases visit visits method path rr) [
        | inl (_, same) ↦
            AllSound-cons (next_call method path) calls rr _ all
              (ap (λ (r : Table × Bytes). r.0) same)
        | inr (k, p, picked, _, updated) ↦
            AllSound-Updated (next_call method path) calls method k (next_ip p).0 rr _ all updated (
              rw (next_ip-ips p) (
                IsSound-cons method k (next_call method path) calls p.ips
                  (all method k p picked.held)))
      ]
  step-AllSound (remove_call method path t) calls rr all =
      elim (remove_cases visit visits method path t rr) [
        | inl (_, same) ↦ AllSound-cons (remove_call method path t) calls rr _ all same
        | inr (k, p, picked, updated) ↦
            AllSound-Updated (remove_call method path t) calls method k (remove_ip t p) rr _ all
              updated
              (IsSound-cons method k (remove_call method path t) calls (remove_ip t p).ips
                (remove_ip-IsSound method k t calls p (all method k p picked.held)))
      ]

  -- In every table that calls of AddAddrs, Next and Remove make from the empty one, the addresses
  -- of an entry are distinct, and each was given to AddAddrs for that method and that path.
  pub Made-AllSound : (calls : List Call) (rr : Table) → Made visit calls rr → AllSound calls rr
  unfolding find entry
  Made-AllSound calls rr made_new = λ method k p e. absurd (ground arith)
  Made-AllSound calls rr (made_step c made) = step-AllSound c _ _ (Made-AllSound _ _ made)

  -- Next answers "" or an address that an earlier AddAddrs gave for the same method, under the
  -- requested path itself or under a path that matches it.
  pub next-WasAdded :
      (method path : Bytes) (calls : List Call) (rr : Table)
      → Made visit calls rr
      → ((next visit method path rr).1 ≡ [])
        ⊎ ((k : Bytes) × ((k ≡ norm_path path) ⊎ (matches (norm_path path) k ≡ true))
            × WasAdded method k (next visit method path rr).1 calls)
  next-WasAdded method path calls rr made = elim (next_cases visit visits method path rr) [
    | inl (_, same) ↦ inl (ap (λ (r : Table × Bytes). r.1) same)
    | inr (k, p, picked, answer, _) ↦ elim (next_ip-cases p) [
      | inl nothing ↦ inl (answer ∙ nothing)
      | inr (i, inside, e) ↦ inr (
        k,
        elim picked.answers [ inl same ↦ inl same | inr (_, ok) ↦ inr ok ],
        rw (answer, e)
            (get_or-WasAdded method k calls p.ips i inside
              (Made-AllSound calls rr made method k p picked.held).added),
      )
    ]
  ]
