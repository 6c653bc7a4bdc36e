-- ===== src/Router/RoundRobin/History.antt =====
-- Calls of AddAddrs, Next and Remove, the tables that they make, and a predicate on the addresses
-- of an entry that each call keeps.
use droute.Prelude.{◌≡◌, refl, ◌⊎◌, inl, inr, false, some, List, [], ◌∷◌, ◌++◌, Bytes, arith}
use droute.Router.Match.{eqb}
use droute.Router.RoundRobin.{
  Ips, Paths, Table, new_round_robin, norm_path, contains, add_addrs, remove_ip, next, remove,
}
use droute.Router.RoundRobin.Table.{entry}
use droute.Router.RoundRobin.Removal.{remove_ip_cases, contains-append}

pub data Call : Type 0 where
  add_call : Bytes → Bytes → Bytes → Call
  next_call : Bytes → Bytes → Call
  remove_call : Bytes → Bytes → Bytes → Call

unfoldable pub step : (Paths → Paths) → Call → Table → Table
step visit (add_call method path ip) rr = add_addrs method path ip rr
step visit (next_call method path) rr = (next visit method path rr).0
step visit (remove_call method path ip) rr = remove visit method path ip rr

-- The calls that made a table, the last one first.
pub data Made (visit : Paths → Paths) : List Call → Table → Type 0 where
  made_new : Made visit [] new_round_robin
  made_step :
      {calls : List Call} {rr : Table} (c : Call)
      → Made visit calls rr
      → Made visit (c ∷ calls) (step visit c rr)

-- AddAddrs was called with this method, a path that reads as this key, and this address.
abbrev pub WasAdded : Bytes → Bytes → Bytes → List Call → Type 0
WasAdded method k ip [] = ⊥
WasAdded method k ip (add_call m path a ∷ calls) =
    ((m ≡ method) × (norm_path path ≡ k) × (a ≡ ip)) ⊎ WasAdded method k ip calls
WasAdded method k ip (next_call m path ∷ calls) = WasAdded method k ip calls
WasAdded method k ip (remove_call m path a ∷ calls) = WasAdded method k ip calls

abbrev pub AllAdded : Bytes → Bytes → List Call → List Bytes → Type 0
AllAdded method k calls [] = Unit
AllAdded method k calls (ip ∷ ips) = WasAdded method k ip calls × AllAdded method k calls ips

abbrev pub Distinct : List Bytes → Type 0
Distinct [] = Unit
Distinct (x ∷ xs) = (contains x xs ≡ false) × Distinct xs

-- What the calls have established of the addresses of an entry.
pub record IsSound (method k : Bytes) (calls : List Call) (xs : List Bytes) : Type 0 where
  pub distinct : Distinct xs
  pub added : AllAdded method k calls xs

abbrev pub AllSound : List Call → Table → Type 0
AllSound calls rr =
    (method k : Bytes) (p : Ips) → entry method k rr ≡ some p → IsSound method k calls p.ips

WasAdded-cons :
    (c : Call) (method k ip : Bytes) (calls : List Call)
    → WasAdded method k ip calls
    → WasAdded method k ip (c ∷ calls)
WasAdded-cons (add_call m path a) method k ip calls h = inr h
WasAdded-cons (next_call m path) method k ip calls h = h
WasAdded-cons (remove_call m path a) method k ip calls h = h

contains-cut :
    (x : Bytes) (pre : List Bytes) (q t : Bytes) (post : List Bytes)
    → contains x (pre ++ q ∷ t ∷ post) ≡ false
    → contains x (pre ++ post) ≡ false
unfolding contains
contains-cut x pre q t post h =
    ground (arith, contains-append x pre (q ∷ t ∷ post), contains-append x pre post)

contains-concat :
    (x ip : Bytes) (xs : List Bytes)
    → contains x xs ≡ false
    → eqb x ip ≡ false
    → contains x (xs ++ ip ∷ []) ≡ false
unfolding contains eqb
contains-concat x ip xs h n = ground (arith, contains-append x xs (ip ∷ []))

pub Distinct-concat :
    (ip : Bytes) (xs : List Bytes) → Distinct xs → contains ip xs ≡ false → Distinct (xs ++ ip ∷ [])
unfolding contains
Distinct-concat ip [] d h = (refl, tt)
Distinct-concat ip (x ∷ xs) (d, ds) h =
    (contains-concat x ip xs d (ground arith), Distinct-concat ip xs ds (ground arith))

module _ (method k : Bytes) where
  AllAdded-cons :
      (c : Call) (calls : List Call) (xs : List Bytes)
      → AllAdded method k calls xs
      → AllAdded method k (c ∷ calls) xs
  AllAdded-cons c calls [] h = tt
  AllAdded-cons c calls (x ∷ xs) (a, h) =
      (WasAdded-cons c method k x calls a, AllAdded-cons c calls xs h)

  pub AllAdded-append :
      (calls : List Call) (xs ys : List Bytes)
      → AllAdded method k calls xs
      → AllAdded method k calls ys
      → AllAdded method k calls (xs ++ ys)
  AllAdded-append calls [] ys h g = g
  AllAdded-append calls (x ∷ xs) ys (a, h) g = (a, AllAdded-append calls xs ys h g)

  -- leaving out two neighbours
  IsSound-cut :
      (calls : List Call) (pre : List Bytes) (q t : Bytes) (post : List Bytes)
      → IsSound method k calls (pre ++ q ∷ t ∷ post)
      → IsSound method k calls (pre ++ post)
  IsSound-cut calls [] q t post s = record { distinct = s.distinct.1.1; added = s.added.1.1 }
  IsSound-cut calls (x ∷ pre) q t post s =
      let rest =
        IsSound-cut calls pre q t post (record { distinct = s.distinct.1; added = s.added.1 }) in
      record {
        distinct = (contains-cut x pre q t post s.distinct.0, rest.distinct);
        added = (s.added.0, rest.added);
      }

  pub IsSound-cons :
      (c : Call) (calls : List Call) (xs : List Bytes)
      → IsSound method k calls xs
      → IsSound method k (c ∷ calls) xs
  IsSound-cons c calls xs s = record {
    distinct = s.distinct;
    added = AllAdded-cons c calls xs s.added;
  }

  pub remove_ip-IsSound :
      (t : Bytes) (calls : List Call) (p : Ips)
      → IsSound method k calls p.ips
      → IsSound method k calls (remove_ip t p).ips
  remove_ip-IsSound t calls p s = elim (remove_ip_cases t p) [
    | inl (_, same) ↦ rw same s
    | inr (inl front) ↦
        let all = rw front at s in record { distinct = all.distinct.1; added = all.added.1 }
    | inr (inr (pre, q, post, found, _, left)) ↦
        rw left (IsSound-cut calls pre q t post (rw found at s))
  ]
