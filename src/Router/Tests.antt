-- ===== src/Router/Tests.antt =====
-- The routing theorems at concrete requests.
use droute.Prelude.{
  ◌≡◌, ◌≢◌, refl, ◌↔◌, ◌⊎◌, true, [], ◌∷◌, ◌++◌, arith, Bytes, codes, bytes_discrete, find, insert,
  in_order, in_order-Visits, Visits, IsAscii, before,
}
use droute.Router.Match.{eqb, match_wildcard, match_named_param, root_path, star}
use droute.Router.Match.Wildcard.{match_wildcard_iff}
use droute.Router.Match.Named.{match_named_param_iff, IsNamedMatch}
use droute.Router.RoundRobin.{
  Ips, Paths, Table, new_round_robin, norm_path, add_addrs, next, remove_ip, remove_from, cut,
  contains,
}
use droute.Router.RoundRobin.Table.{entry}
use droute.Router.RoundRobin.Rotation.{next_times, next_round}
use droute.Router.RoundRobin.Removal.{Absent, InFront, Behind, remove_ip_cases}
use droute.Router.RoundRobin.History.{step, Made, made_new, made_step, add_call, AllSound, WasAdded}
use droute.Router.RoundRobin.Origins.{Made-AllSound, next-WasAdded}
use droute.Router.RoundRobin.Choice.{matches}

program : Unit {0}
unfolding add_addrs entry find insert bytes_discrete contains eqb remove_ip remove_from cut step
program = tt

abbrev visit : Paths → Paths
visit = in_order bytes_discrete

visits : Visits bytes_discrete visit
visits = in_order-Visits bytes_discrete

abbrev get : Bytes
get = codes "GET"

abbrev page : Bytes
page = codes "/page"

abbrev first : Bytes
first = codes "http://a"

abbrev second : Bytes
second = codes "http://b"

abbrev two : Table
two = add_addrs get page second (add_addrs get page first new_round_robin)

abbrev pair : Ips
pair = record { ips = first ∷ second ∷ []; actual = 0 }

match_wildcard_iff_example : (match_wildcard (codes "/files/a/b") (codes "/files/*path") ≡ true) ↔ (
    (codes "/files/*path" ≢ root_path)
    × ((rest : Bytes) × (codes "/files/a/b" ≡ before star (codes "/files/*path") ++ rest)))
match_wildcard_iff_example = match_wildcard_iff (codes "/files/a/b") (codes "/files/*path")

user_path-IsAscii : IsAscii (codes "/user/7")
user_path-IsAscii = (
  omega arith,
  (omega arith, (omega arith, (omega arith, (omega arith, (omega arith, (omega arith, tt)))))),
)

match_named_param_iff_example : (match_named_param (codes "/user/7") (codes "/user/:id") ≡ true) ↔ (
    (codes "/user/7" ≢ [])
    × (codes "/user/:id" ≢ [])
    × IsNamedMatch (codes "/user/7") (codes "/user/:id"))
match_named_param_iff_example =
    match_named_param_iff (codes "/user/7") (codes "/user/:id") user_path-IsAscii

next_round_example : (next_times visit 2 get page two).1 ≡ first ∷ second ∷ []
unfolding program
next_round_example = next_round visit get page pair two refl (omega arith)

remove_ip_cases_example :
    Absent second pair.ips (remove_ip second pair).ips
    ⊎ InFront second pair.ips (remove_ip second pair).ips
    ⊎ Behind second pair.ips (remove_ip second pair).ips
remove_ip_cases_example = remove_ip_cases second pair

-- Remove of the second server has left no server.
remove_ip-pair : (remove_ip second pair).ips ≡ []
unfolding program
remove_ip-pair = refl

two-Made : Made visit (add_call get page second ∷ add_call get page first ∷ []) two
unfolding program
two-Made = made_step (add_call get page second) (made_step (add_call get page first) made_new)

Made-AllSound_example : AllSound (add_call get page second ∷ add_call get page first ∷ []) two
Made-AllSound_example =
    Made-AllSound visit visits (add_call get page second ∷ add_call get page first ∷ []) two
      two-Made

next-WasAdded_example :
    ((next visit get page two).1 ≡ [])
    ⊎ ((k : Bytes) × ((k ≡ norm_path page) ⊎ (matches (norm_path page) k ≡ true))
        × WasAdded get k
            (next visit get page two).1
            (add_call get page second ∷ add_call get page first ∷ []))
next-WasAdded_example =
    next-WasAdded visit visits get page (add_call get page second ∷ add_call get page first ∷ [])
      two two-Made
