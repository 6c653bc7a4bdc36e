-- ===== src/Router/HandlerTests.antt =====
-- The theorems on Retry, CircuitBrake and the server at concrete handlers.
use droute.Prelude.{
  ℕ, zero, suc, ◌≤◌, ◌≡◌, refl, ◌⊎◌, Bool, true, false, Option, none, some, List, [], ◌∷◌, ◌++◌,
  arith, Bytes, codes, bytes_discrete, find, insert, in_order, if◌then◌else◌, ◌==◌, ◌&&◌,
}
use droute.ErrHandler.{err_handler}
use droute.ResponseWriter.{new_response_writer, response_writer}
use droute.Router.Match.{root_path, eqb}
use droute.Router.Exchange.{Request, Exchange, HandlerFunc, Gateway}
use droute.Router.Retry.{retry, is_server_error, Attempts, retry-Attempts}
use droute.Router.CircuitBrake.{
  Guarded, Breakers, Documented, AllUnharmed, server_fail, circuit_brake,
}
use droute.Router.CircuitBrake.Acceptance.{prepared, circuit_brake-AllUnharmed}
use droute.Router.RoundRobin.{Table, new_round_robin, round_robin}
use droute.Router.Server.{
  Routers, set_router, get_router, default_router, Mux, Checks, Server, AddError, add_to,
  valid_path, add,
}
use droute.Router.Server.Adding.{HandledIsFound, Refused, Serves, add_cases}

program : Unit {0}
unfolding find insert bytes_discrete get_router
program = tt

abbrev request : Request
request = record {
  method = codes "GET";
  host = codes "h";
  request_uri = root_path;
  dst = some (codes "http://a");
  url = record { scheme = codes "http"; host = codes "h"; path = root_path };
  header = [];
}

-- a handler that always fails with 503 and a text
abbrev unavailable : {W : Type 0} → HandlerFunc W
unavailable x =
    some (record x { rw = record x.rw { code = 503; buffer = x.rw.buffer ++ codes "no" } })

abbrev asked : {W : Type 0} → W → Exchange W
asked world = record { world = world; rw = new_response_writer; req = request }

retry-Attempts_example :
    (z : Exchange (Unit {0})) × (retry 3 unavailable (asked tt) ≡ some z)
    × ((n : ℕ) × (n ≤ 3)
        × Attempts unavailable n (asked tt) z
        × ((n ≡ 3) ⊎ (is_server_error z.rw.code ≡ false)))
retry-Attempts_example =
    retry-Attempts 3 unavailable (asked tt) (omega arith) (λ y.
      (record y { rw = record y.rw { code = 503; buffer = y.rw.buffer ++ codes "no" } }, refl))

-- A breaker that counts the failures in a row, and is open above five.
abbrev World : Type 0
World = Gateway (Unit {0}) ℕ (Unit {0})

abbrev ended : ℕ → Exchange World × Option Bytes → ℕ × Exchange World × Option Bytes
ended b (y, none) = (0, y, none)
ended b (y, some e) = (suc b, y, some e)

abbrev ran : ℕ → Option (Exchange World × Option Bytes) → Option (ℕ × Exchange World × Option Bytes)
ran b none = none
ran b (some r) = some (ended b r)

abbrev count_run :
    ℕ → Guarded (Exchange World) → Exchange World → Option (ℕ × Exchange World × Option Bytes)
count_run zero req x = ran 0 (req x)
count_run (suc n) req x =
    let r = ran (suc n) (req x) in
    if 5 == n then some (suc n, x, some (codes "circuit breaker is open")) else r

abbrev counting : Breakers ℕ (Exchange World)
counting = record { new_breaker = λ name. 0; execute = count_run }

abbrev text_only : ℕ → Bytes → Bytes
text_only code err = err

abbrev world : World
world = record { lb = tt; cbs = []; net = tt }

counting-accepts :
    (b : ℕ) (req : Guarded (Exchange World)) (x y : Exchange World) (err : Option Bytes)
    → b ≡ 0
    → req x ≡ some (y, err)
    → (b' : ℕ) × (counting.execute b req x ≡ some (b', y, err)) × (err ≡ none → b' ≡ 0)
counting-accepts b req x y none e h = (0, rw (e, h) refl, λ n. refl)
counting-accepts b req x y (some err) e h = (1, rw (e, h) refl, λ n. ground arith)

counting-Documented : Documented counting text_only (λ b. b ≡ 0)
counting-Documented = record { starts = λ name. refl; accepts = counting-accepts }

circuit_brake-AllUnharmed_example :
    (z : Exchange World) × (circuit_brake counting text_only unavailable (asked world) ≡ some z)
    × AllUnharmed counting text_only (λ b. b ≡ 0) z.world.cbs
    × (z.rw
        ≡ err_handler response_writer text_only 500
            (some server_fail)
            (record new_response_writer { code = 503; buffer = codes "no" }))
unfolding find
circuit_brake-AllUnharmed_example =
    circuit_brake-AllUnharmed counting text_only (λ b. b ≡ 0) unavailable (codes "http://a")
      (asked world)
      (let x = prepared counting text_only (λ b. b ≡ 0) (codes "http://a") (asked world) in
        record x { rw = record x.rw { code = 503; buffer = codes "no" } })
      counting-Documented (λ proxy b h. ground arith) refl refl refl

abbrev routers : Routers
routers = set_router (codes "api") 1 (set_router default_router 0 [])

-- a router as the list of its routes
abbrev listed : Bytes → Bytes → List (Bytes × Bytes) → Bool
listed method path [] = false
listed method path ((m, p) ∷ routes) =
    if eqb m method && eqb p path then true else listed method path routes

-- Handle panics on one path, behind a change.
abbrev mux : Mux (List (Bytes × Bytes))
mux = record {
  lookup = listed;
  handle = λ method path h.
      if eqb path (codes "/bad")
      then ((codes "HEAD", path) ∷ h, false)
      else ((method, path) ∷ h, true);
}

abbrev server : Server Table (List (Bytes × Bytes))
server = record { lb = new_round_robin; host_switch = []; routers = routers; muxes = λ m. [] }

mux-HandledIsFound : HandledIsFound mux
unfolding eqb bytes_discrete
mux-HandledIsFound method path h h' e = ground arith

abbrev checks : Checks
checks = record {
  check_name = λ s min max. true;
  check_file = λ s min max. true;
  parses = λ s. true;
}

add_cases_example :
    Refused mux (codes "api") (codes "GET") (codes "/x") server (
      add
        (round_robin (in_order bytes_discrete))
        mux
        checks
        (codes "api")
        (codes "GET")
        (codes "/x")
        (codes "http://a")
        server)
    ⊎ (((add
            (round_robin (in_order bytes_discrete))
            mux
            checks
            (codes "api")
            (codes "GET")
            (codes "/x")
            (codes "http://a")
            server).1
          ≡ none)
        × Serves mux
            (codes "api")
            (codes "GET")
            (codes "/x")
            (codes "http://a")
            (add
              (round_robin (in_order bytes_discrete))
              mux
              checks
              (codes "api")
              (codes "GET")
              (codes "/x")
              (codes "http://a")
              server).0)
add_cases_example =
    add_cases (in_order bytes_discrete) mux checks (codes "api") (codes "GET") (codes "/x")
      (codes "http://a") server mux-HandledIsFound

-- An Add on which Handle panics keeps what Handle has changed, in that router only.
refused_runs :
    let r =
      add
        (round_robin (in_order bytes_discrete))
        mux
        checks
        (codes "api")
        (codes "GET")
        (codes "/bad")
        (codes "http://a")
        server in
    (r.0.muxes 1 ≡ (codes "HEAD", codes "/bad") ∷ [])
    × (r.0.muxes 0 ≡ [])
    × (r.0.lb ≡ server.lb)
    × (r.1 ≡ some AddError.panicked)
unfolding add add_to get_router eqb valid_path find insert bytes_discrete
refused_runs = (refl, refl, refl, refl)
