-- ===== src/Router/Server.antt =====
-- router/router.go and router/hostswitch.go: the named routers, the routers of the hosts, and Add.
-- A router is httprouter's: `Mux` is what the code calls of it. The routers are shared by
-- reference, from the names and from the hosts: a reference is a number into the heap `muxes`.
pub mod Adding
pub mod Names
use droute.Prelude.{
  ℕ, Bool, true, false, not, ◌&&◌, ◌||◌, Option, none, some, List, [], ◌∷◌, Bytes, Map, codes,
  bytes_discrete, find, insert, delete, ltb, ◌==◌, if◌then◌else◌,
}
use droute.Router.Match.{eqb, root_path}
use droute.Router.RoundRobin.{LoadBalance, norm_path}

abbrev pub default_router : Bytes
default_router = codes "_def_"

abbrev pub localhost_name : Bytes
localhost_name = codes "localhost"

-- A reference to a router; `nil` is none.
abbrev pub Ref : Type 0
Ref = ℕ

abbrev pub Routers : Type 0
Routers = Map Bytes Ref

-- Routers.Set, Routers.Del and HostSwitch.Set are assignments to the map.
abbrev pub set_router : Bytes → Ref → Routers → Routers
set_router = insert bytes_discrete

abbrev pub del_router : Bytes → Routers → Routers
del_router = delete bytes_discrete

abbrev pub or_else : Option Ref → Option Ref → Option Ref
or_else (some r) other = some r
or_else none other = other

-- Routers.Get
unfoldable pub get_router : Bytes → Routers → Option Ref
get_router name r = or_else (find bytes_discrete name r) (find bytes_discrete default_router r)

-- What the code calls of httprouter.Router: whether Lookup gives a handler or a redirection, and
-- Handle: what it leaves of the router, and whether it returns. It panics on a route that it refuses, and
-- may have changed the router before.
pub record Mux (H : Type 0) : Type 0 where
  pub lookup : Bytes → Bytes → H → Bool
  pub handle : Bytes → Bytes → H → H × Bool

-- The checks of a route's parts, from packages that the code only calls: `check_name s min max` is
-- text.CheckLettersNumber, `check_file` is text.CheckFileName and `parses` is url.Parse.
pub record Checks : Type 0 where
  pub check_name : Bytes → ℕ → ℕ → Bool
  pub check_file : Bytes → ℕ → ℕ → Bool
  pub parses : Bytes → Bool

pub data AddError : Type 0 where
  invalid_route_name invalid_method_name invalid_path_name invalid_destiny router_not_found :
      AddError
  panicked : AddError

abbrev pub HostSwitch : Type 0
HostSwitch = Map Bytes (Option Ref)

pub record Server (S H : Type 0) : Type 0 where
  pub lb : S
  pub host_switch : HostSwitch
  pub routers : Routers
  pub muxes : ℕ → H

abbrev pub write_mux : {H : Type 0} → Ref → H → (Ref → H) → Ref → H
write_mux m h muxes n = if n == m then h else muxes n

-- HostSwitch.ServeHTTP refuses with 403, hands the request to a router, or calls the method of a
-- nil router, which an interface that is not nil can hold.
pub data HostAnswer : Type 0 where
  forbidden nil_router : HostAnswer
  routed : Ref → HostAnswer

abbrev pub host_answer : Option (Option Ref) → HostAnswer
host_answer none = forbidden
host_answer (some none) = nil_router
host_answer (some (some m)) = routed m

-- `to_unicode` is idna.ToUnicode.
unfoldable pub serve_host : (Bytes → Option Bytes) → Bytes → HostSwitch → HostAnswer
serve_host to_unicode host hs = elim (to_unicode host) [
  | none ↦ forbidden
  | some name ↦ host_answer (find bytes_discrete name hs)
]

module _ {S H : Type 0} where
  -- SetHTTPAddr and SetHTTPSAddr
  unfoldable pub set_http_addr : Bytes → Server S H → Server S H
  set_http_addr addr r = record r {
    host_switch = insert bytes_discrete addr (get_router default_router r.routers) r.host_switch;
  }

  -- SetHostSwitch; false is the error "no router with this name found"
  unfoldable pub set_host_switch : Bytes → Bytes → Server S H → Server S H × Bool
  set_host_switch domain name r = elim (get_router name r.routers) [
    | none ↦ (r, false)
    | some m ↦
        (record r { host_switch = insert bytes_discrete domain (some m) r.host_switch }, true)
  ]

  -- Start, up to the internal routes; none is the error "no default router"
  unfoldable pub start : Routers → S → (ℕ → H) → Option (Server S H)
  start routers lb muxes = elim (get_router default_router routers) [
    | none ↦ none
    | some m ↦ some (record {
      lb = lb;
      host_switch = insert bytes_discrete localhost_name (some m) [];
      routers = routers;
      muxes = muxes;
    })
  ]

  module _ (lb : LoadBalance S) (mux : Mux H) (checks : Checks) where
    open checks use {check_name, check_file, parses}

    -- the end of Add: the handler, if the route is new, and the address
    unfoldable pub add_to : Ref → Bytes → Bytes → Bytes → Server S H → Server S H × Option AddError
    add_to m method path dst r =
        let known = record r { lb = lb.add_addrs method path dst r.lb } in
        let (h, returned) = mux.handle method path (r.muxes m) in
        let tried = write_mux m h r.muxes in
        if mux.lookup method path (r.muxes m)
        then (known, none)
        else if returned
        then (record known { muxes = tried }, none)
        else (record r { muxes = tried }, some panicked)

    unfoldable pub valid_path : Bytes → Bool
    valid_path [] = true
    valid_path (b ∷ path) = check_file (b ∷ path) 1 128

    -- Add
    unfoldable pub add : Bytes → Bytes → Bytes → Bytes → Server S H → Server S H × Option AddError
    add name method path dst r =
        if not (check_name name 2 128) && not (eqb name default_router)
        then (r, some invalid_route_name)
        else if not (check_name method 3 20)
        then (r, some invalid_method_name)
        else if not (valid_path path)
        then (r, some invalid_path_name)
        else if not (parses dst)
        then (r, some invalid_destiny)
        else elim (get_router name r.routers) [
          | none ↦ (r, some router_not_found)
          | some m ↦ add_to m method (norm_path path) dst r
        ]
