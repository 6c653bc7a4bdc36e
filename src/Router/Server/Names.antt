-- ===== src/Router/Server/Names.antt =====
-- Names of routers and hosts.
use droute.Prelude.{◌≡◌, Option, some, Bytes, bytes_discrete, find, find-insert, arith, ite, true}
use droute.Router.Server.{
  Ref, Routers, Server, default_router, get_router, set_router, or_else, set_host_switch,
  serve_host, routed,
}

-- A name that was set gives its router; every other name gives what it gave before, but for the
-- names that stand for no router of their own when the default router is the one that was set.
pub get_router-set_router :
    (name q : Bytes) (m : Ref) (r : Routers)
    → get_router q (set_router name m r)
      ≡ ite (bytes_discrete name q) (some m) (
          or_else (find bytes_discrete q r) (
            ite
              (bytes_discrete name default_router)
              (some m)
              (find bytes_discrete default_router r)))
unfolding get_router
get_router-set_router name q m r = ground (
  arith,
  find-insert bytes_discrete name q m r,
  find-insert bytes_discrete name default_router m r,
)

-- SetHostSwitch succeeds if the name or the default name stands for a router. Then requests for
-- that host go to the router, and requests for every other host go where they went.
pub set_host_switch-serve_host :
    {S H : Type 0} (domain name : Bytes) (m : Ref) (r : Server S H)
    (to_unicode : Bytes → Option Bytes) (host q : Bytes)
    → get_router name r.routers ≡ some m
    → to_unicode host ≡ some q
    → ((set_host_switch domain name r).1 ≡ true)
      × (serve_host to_unicode host (set_host_switch domain name r).0.host_switch
          ≡ ite (bytes_discrete domain q) (routed m) (serve_host to_unicode host r.host_switch))
unfolding set_host_switch serve_host
set_host_switch-serve_host domain name m r to_unicode host q found unicode =
    let stored = find-insert bytes_discrete domain q (some m) r.host_switch in
    (ground arith, ground arith)
