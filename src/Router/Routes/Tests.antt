-- ===== src/Router/Routes/Tests.antt =====
-- The theorems on routes at concrete requests.
use droute.Prelude.{
  ◌≡◌, refl, ◌↔◌, ◌⊎◌, Bool, true, false, none, some, List, [], ◌∷◌, Bytes, codes, bytes_discrete,
  in_order, find, insert, delete, if◌then◌else◌, ◌&&◌, arith,
}
use droute.ResponseWriter.{ResponseWriter, new_response_writer, response_writer}
use droute.Router.Match.{eqb}
use droute.Router.RoundRobin.{Table, new_round_robin, round_robin}
use droute.Router.Server.{
  Server, Mux, Checks, AddError, set_router, default_router, get_router, start,
}
use droute.Router.Server.Adding.{HandledIsFound, Serves}
use droute.Router.Routes.{
  Route, Payload, read_all, Body, Parsed, parsed, malformed, read_route, add_route, get_route,
}
use droute.Router.Routes.Reporting.{Changed, add_route_cases}
use droute.Router.Routes.Panicking.{all_added, get_route_iff}

abbrev route : Route
route = record {
  methode = codes "GET";
  router = default_router;
  path = codes "/x";
  redir_to = codes "http://a";
}

-- a router as the list of its routes
abbrev listed : Bytes → Bytes → List (Bytes × Bytes) → Bool
listed method path [] = false
listed method path ((m, p) ∷ routes) =
    if eqb m method && eqb p path then true else listed method path routes

abbrev mux : Mux (List (Bytes × Bytes))
mux = record { lookup = listed; handle = λ method path h. ((method, path) ∷ h, true) }

mux-HandledIsFound : HandledIsFound mux
unfolding eqb bytes_discrete
mux-HandledIsFound method path h h' e = ground arith

abbrev checks : Checks
checks = record {
  check_name = λ s min max. true;
  check_file = λ s min max. true;
  parses = λ s. true;
}

abbrev server : Server Table (List (Bytes × Bytes))
server = record {
  lb = new_round_robin;
  host_switch = [];
  routers = set_router default_router 0 [];
  muxes = λ m. [];
}

abbrev body : Body
body = record { content = read_all (codes "{}"); close = none }

abbrev unmarshal : Bytes → Parsed
unmarshal b = parsed route

abbrev encode : Payload → Bytes
encode p = []

abbrev error_text : AddError → Bytes
error_text err = codes "error"

abbrev adding :
    Body
    → Server Table (List (Bytes × Bytes)) × ResponseWriter
    → Server Table (List (Bytes × Bytes)) × ResponseWriter
adding =
    add_route (round_robin (in_order bytes_discrete)) mux checks response_writer encode unmarshal
      error_text (λ h. h)

add_route_cases_example :
    (((e : Bytes) × (read_route unmarshal body ≡ malformed e))
      × ((adding body (server, new_response_writer)).0 ≡ server)
      × ((adding body (server, new_response_writer)).1.code ≡ 500))
    ⊎ ((rt : Route) × (read_route unmarshal body ≡ parsed rt)
        × (((Changed mux rt server (adding body (server, new_response_writer)).0)
              × ((adding body (server, new_response_writer)).1.code ≡ 422))
            ⊎ (Serves mux rt.router rt.methode rt.path rt.redir_to
                  (adding body (server, new_response_writer)).0
                × ((adding body (server, new_response_writer)).1.code ≡ 201))))
add_route_cases_example =
    add_route_cases (in_order bytes_discrete) mux checks encode unmarshal error_text (λ h. h) body
      server new_response_writer mux-HandledIsFound

-- what Start gives
abbrev first_server : Server Table (List (Bytes × Bytes))
first_server = record server { host_switch = insert bytes_discrete (codes "localhost") (some 0) [] }

set_up : start (set_router default_router 0 []) new_round_robin (λ m. []) ≡ some first_server
unfolding start get_router find insert delete bytes_discrete
set_up = refl

get_route_iff_example :
    (get_route
        (round_robin (in_order bytes_discrete))
        mux
        checks
        response_writer
        encode
        unmarshal
        error_text
        (λ h. h)
        body
        (
          all_added
              (round_robin (in_order bytes_discrete))
              mux
              checks
              encode
              unmarshal
              error_text
              (λ h. h)
              (body ∷ [])
              first_server,
          new_response_writer,
        )
      ≡ none)
    ↔ ((rt : Route) × (read_route unmarshal body ≡ parsed rt))
get_route_iff_example =
    get_route_iff (round_robin (in_order bytes_discrete)) mux checks encode unmarshal error_text
      (λ h. h) (set_router default_router 0 []) new_round_robin (λ m. []) first_server (body ∷ [])
      body new_response_writer set_up
