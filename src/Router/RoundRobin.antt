-- ===== src/Router/RoundRobin.antt =====
-- router/loadbalance.go: the interface LoadBalance, RedirDst, RoundRobin and findPath. The lock
-- makes each method one step, so a method is a function on the table. A range over a Go map has no
-- fixed order: it is the parameter `visit`, and `Visits` is all that is known of it.
pub mod Table
pub mod Choice
pub mod Rotation
pub mod Removal
pub mod History
pub mod Origins
use droute.Prelude.{
  ℕ, zero, suc, ◌+◌, ◌-◌, ◌↔◌, ◌≡◌, ◌⊎◌, Bool, ◌&&◌, ◌||◌, true, false, Option, none, some, List,
  [], ◌∷◌, ◌++◌, Bytes, codes, bytes_discrete, ite, find, insert, Map, ltb, leb, ◌==◌, length,
  get_or, take, drop, if◌then◌else◌,
}
use droute.Router.Match.{match_wildcard, match_named_param, eqb, root_path}

-- the interface LoadBalance; `next` also returns the new state of the balancer
pub record LoadBalance (S : Type 0) : Type 0 where
  pub add_addrs : Bytes → Bytes → Bytes → S → S
  pub next : Bytes → Bytes → S → S × Bytes
  pub remove : Bytes → Bytes → Bytes → S → S

-- RedirDst: the state is the one destination.
abbrev pub redir_dst : LoadBalance Bytes
redir_dst = record {
  add_addrs = λ method path ip dst. dst;
  next = λ method path dst. (dst, dst);
  remove = λ method path ip dst. dst;
}

pub record Ips : Type 0 where
  pub ips : List Bytes
  pub actual : ℕ

abbrev pub Paths : Type 0
Paths = Map Bytes Ips

-- the field `ips` of RoundRobin: a map from the method to a map from the path
abbrev pub Table : Type 0
Table = Map Bytes Paths

abbrev pub new_round_robin : Table
new_round_robin = []

-- `if path == "" { path = "/" }`
abbrev pub norm_path : Bytes → Bytes
norm_path [] = root_path
norm_path (b ∷ s) = b ∷ s

-- `m, ok := rr.ips[method]; if !ok { m = make(map[string]*ips) }`
abbrev pub paths_or_new : Option Paths → Paths
paths_or_new none = []
paths_or_new (some m) = m

abbrev pub ips_or_new : Option Ips → Ips
ips_or_new none = record { ips = []; actual = 0 }
ips_or_new (some p) = p

-- the loop of AddAddrs that looks for the address
unfoldable pub contains : Bytes → List Bytes → Bool
contains ip [] = false
contains ip (x ∷ xs) = eqb x ip || contains ip xs

abbrev pub with_address : Bytes → Ips → Ips
with_address ip p = record p { ips = if contains ip p.ips then p.ips else p.ips ++ ip ∷ [] }

unfoldable pub add_addrs : Bytes → Bytes → Bytes → Table → Table
add_addrs method path ip rr =
    let m = paths_or_new (find bytes_discrete method rr) in
    let p = ips_or_new (find bytes_discrete (norm_path path) m) in
    insert bytes_discrete method (insert bytes_discrete (norm_path path) (with_address ip p) m) rr

-- the second half of Next, on the addresses of one path: the address and the new position
unfoldable pub next_ip : Ips → Ips × Bytes
next_ip p =
    if leb (length p.ips) 0
    then (p, [])
    else let a = if leb (length p.ips) p.actual then 0 else p.actual in
      (record p { actual = a + 1 }, get_or p.ips a [])

-- the slices that Remove leaves when the address stands at index i
unfoldable pub cut : ℕ → List Bytes → List Bytes
cut i xs =
    if ltb 0 i && ltb (i + 1) (length xs)
    then take (i - 1) xs ++ drop (i + 1) xs
    else if i == 0 && ltb (i + 1) (length xs)
    then drop (i + 1) xs
    else if ltb 0 i && i + 1 == length xs
    then take (i - 1) xs
    else if i == 0 && length xs == 1
    then take 0 xs
    else xs

-- the loop of Remove: `i` counts, `rest` is what the range has still to visit
unfoldable pub remove_from : Bytes → ℕ → List Bytes → List Bytes → List Bytes
remove_from target i [] xs = xs
remove_from target i (ip ∷ rest) xs =
    let further = remove_from target (i + 1) rest xs in if eqb ip target then cut i xs else further

unfoldable pub remove_ip : Bytes → Ips → Ips
remove_ip target p = record p { ips = remove_from target 0 p.ips p.ips }

-- the loop of findPath
unfoldable pub first_match : Bytes → Paths → Option (Bytes × Ips)
first_match path [] = none
first_match path ((k, p) ∷ l) =
    if match_wildcard path k || match_named_param path k then some (k, p) else first_match path l

module _ (visit : Paths → Paths) where
  -- findPath. The result is a pointer into the map: its key comes with the addresses.
  unfoldable pub find_path : Bytes → Paths → Option (Bytes × Ips)
  find_path path m = elim (find bytes_discrete path m) [
    | some p ↦ some (path, p)
    | none ↦ first_match path (visit m)
  ]

  unfoldable pub next : Bytes → Bytes → Table → Table × Bytes
  next method path rr = elim (find bytes_discrete method rr) [
    | none ↦ (rr, [])
    | some m ↦ elim (find_path (norm_path path) m) [
      | none ↦ (rr, [])
      | some (k, p) ↦
          (insert bytes_discrete method (insert bytes_discrete k (next_ip p).0 m) rr, (next_ip p).1)
    ]
  ]

  unfoldable pub remove : Bytes → Bytes → Bytes → Table → Table
  remove method path target rr = elim (find bytes_discrete method rr) [
    | none ↦ rr
    | some m ↦ elim (find_path (norm_path path) m) [
      | none ↦ rr
      | some (k, p) ↦
          insert bytes_discrete method (insert bytes_discrete k (remove_ip target p) m) rr
    ]
  ]

  abbrev pub round_robin : LoadBalance Table
  round_robin = record { add_addrs = add_addrs; next = next; remove = remove }
