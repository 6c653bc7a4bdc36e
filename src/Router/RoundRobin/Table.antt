-- ===== src/Router/RoundRobin/Table.antt =====
-- The balancer's table read entry by entry: what each method does to the entry that it means, and
-- that it leaves the others alone.
use droute.Prelude.{
  ◌≡◌, refl, ◌∙◌, Option, none, some, Bytes, bytes_discrete, ite, find, insert, find-insert, arith,
}
use droute.Router.RoundRobin.{
  Ips, Paths, Table, norm_path, paths_or_new, ips_or_new, with_address, add_addrs,
}

abbrev pub entry_of : Bytes → Option Paths → Option Ips
entry_of path none = none
entry_of path (some m) = find bytes_discrete path m

-- The addresses that are held for a method and a path.
unfoldable pub entry : Bytes → Bytes → Table → Option Ips
entry method path rr = entry_of path (find bytes_discrete method rr)

pub entry-insert :
    (method k qm qk : Bytes) (p : Ips) (m : Paths) (rr : Table)
    → entry qm qk (insert bytes_discrete method (insert bytes_discrete k p m) rr)
      ≡ ite
          (bytes_discrete method qm)
          (ite (bytes_discrete k qk) (some p) (find bytes_discrete qk m))
          (entry qm qk rr)
unfolding entry
entry-insert method k qm qk p m rr = ground (
  arith,
  find-insert bytes_discrete method qm (insert bytes_discrete k p m) rr,
  find-insert bytes_discrete k qk p m,
)

find-paths_or_new :
    (q method : Bytes) (rr : Table)
    → find bytes_discrete q (paths_or_new (find bytes_discrete method rr)) ≡ entry method q rr
unfolding entry find
find-paths_or_new q method rr = by_cases (find bytes_discrete method rr)
  where
    by_cases : (o : Option Paths) → find bytes_discrete q (paths_or_new o) ≡ entry_of q o
    by_cases none = refl
    by_cases (some m) = refl

-- AddAddrs appends the address to the entry of the method and the path, "/" for the empty path,
-- unless the entry holds it already; it makes the entry if there is none, and no other entry
-- changes.
pub entry-add_addrs :
    (method path ip qm qk : Bytes) (rr : Table)
    → entry qm qk (add_addrs method path ip rr)
      ≡ ite
          (bytes_discrete method qm)
          (ite
            (bytes_discrete (norm_path path) qk)
            (some (with_address ip (ips_or_new (entry method (norm_path path) rr))))
            (entry qm qk rr))
          (entry qm qk rr)
unfolding add_addrs
entry-add_addrs method path ip qm qk rr =
    entry-insert method (norm_path path) qm qk
      (with_address ip (ips_or_new (find bytes_discrete (norm_path path) old))) old rr
    ∙ rw (find-paths_or_new (norm_path path) method rr, find-paths_or_new qk method rr)
        (elim (bytes_discrete method qm) [ yes e ↦ rw e refl | no n ↦ ground arith ])
  where
    old : Paths
    old = paths_or_new (find bytes_discrete method rr)
