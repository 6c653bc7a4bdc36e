-- ===== src/Router/Routes.antt =====
-- router/router.go: the routes that the REST interface of the router reads and reports, Router.Get,
-- Router.AddRoute and the handlers addRoute, getRoute and localhost.
pub mod Ordering
pub mod Panicking
pub mod Reporting
mod Tests
use droute.Prelude.{
  ℕ, ◌⊎◌, inl, inr, Bool, true, false, not, ◌&&◌, ◌||◌, Option, none, some, List, [], ◌∷◌, map,
  Bytes, codes, take, if◌then◌else◌,
}
use droute.Http.{HttpWriter, header_set}
use droute.ErrHandler.{err_handler, content_type, json_utf8}
use droute.Middlewares.Lists.{str_le}
use droute.Router.Match.{eqb, match_wildcard, match_named_param}
use droute.Router.RoundRobin.{LoadBalance, norm_path}
use droute.Router.Server.{
  Server, Mux, Checks, AddError, default_router, get_router, add, valid_path, write_mux,
}

pub record Route : Type 0 where
  pub methode : Bytes
  pub router : Bytes
  pub path : Bytes
  pub redir_to : Bytes

-- `a < b` on strings
abbrev pub str_lt : Bytes → Bytes → Bool
str_lt a b = not (str_le b a)

-- Routes.Less, on the two routes
unfoldable pub less : Route → Route → Bool
less a b =
    if eqb a.router b.router
    then (if eqb a.methode b.methode
        then str_lt a.path b.path
        else if str_lt a.methode b.methode
        then true
        else false)
    else if str_lt a.router b.router
    then true
    else false

-- Routes.Search
unfoldable pub search : Bytes → List Route → Bool
search path [] = false
search path (r ∷ rs) =
    let further = search path rs in
    if eqb r.path path
    then true
    else if match_wildcard r.path path || match_named_param r.path path
    then true
    else further

pub data Op : Type 0 where
  route_op_add route_op_get : Op

-- What is sent as JSON: OpErr, Response and ResponseRoutes.
pub data Payload : Type 0 where
  op_err : Bytes → Op → Payload
  response : Bytes → Bytes → Bytes → Bytes → Op → Payload
  response_routes : Bytes → Bytes → Op → List Route → Payload

-- The body of a request: what ReadAll would read without a limit, or the text of an error; and the
-- error of Close.
pub data Content : Type 0 where
  read_all : Bytes → Content
  read_failed : Bytes → Content

pub record Body : Type 0 where
  pub content : Content
  pub close : Option Bytes

-- What json.Unmarshal makes of the bytes: a route or the text of an error.
pub data Parsed : Type 0 where
  parsed : Route → Parsed
  malformed : Bytes → Parsed

abbrev pub body_limit_size : ℕ
body_limit_size = 1048576

-- the start of addRoute and of getRoute
unfoldable pub read_route : (Bytes → Parsed) → Body → Parsed
read_route unmarshal body = elim body.content [
  | read_failed e ↦ malformed e
  | read_all b ↦ elim body.close [
    | some e ↦ malformed e
    | none ↦ unmarshal (take body_limit_size b)
  ]
]

module _ {S : Type 0} (W : HttpWriter S) (encode : Payload → Bytes) where
  open W use {header, with_header, write_header, write}

  -- respError, response and responseRoutes
  unfoldable pub send : ℕ → Payload → S → S
  send code payload s =
      let named = with_header (header_set content_type json_utf8 (header s)) s in
      (write (encode payload) (write_header code named)).0

  -- localhost. `remote_ip` is an address or the text of an error, `is_loopback` parses and tests it.
  unfoldable pub localhost :
      {Q : Type 0}
      → (ℕ → Bytes → Bytes)
      → (Bytes → Bool)
      → (Bytes ⊎ Bytes)
      → (Q × S → Option (Q × S))
      → Q × S
      → Option (Q × S)
  localhost err_body is_loopback (inr err) f (q, s) =
      some (q, err_handler W err_body 403 (some err) s)
  localhost err_body is_loopback (inl ip) f (q, s) =
      let run = f (q, s) in
      if is_loopback ip
      then run
      else some (q, err_handler W err_body 403 (some (codes "ip isn't loopback")) s)

module _ {H : Type 0} (handler_paths : H → List (Bytes × Bytes)) where
  abbrev route_of : Bytes → Bytes × Bytes → Route
  route_of name (method, path) = record {
    methode = method;
    router = name;
    path = path;
    redir_to = [];
  }

  -- Router.Get; none is the error "router not found"
  unfoldable pub get : {T : Type 0} → Bytes → Server T H → Option (List Route)
  get name r = elim (get_router name r.routers) [
    | none ↦ none
    | some m ↦ some (map (route_of name) (handler_paths (r.muxes m)))
  ]

module _ {T H : Type 0} (lb : LoadBalance T) (mux : Mux H) (checks : Checks) where
  open checks use {check_name}

  -- Router.AddRoute: what it leaves, and whether it returns; it panics on its own errors and where Handle does
  unfoldable pub add_handler : Bytes → Bytes → Bytes → Server T H → Server T H × Bool
  add_handler name method path r =
      if not (check_name name 2 128) && not (eqb name default_router)
      then (r, false)
      else if not (check_name method 3 20)
      then (r, false)
      else if not (valid_path lb mux checks path)
      then (r, false)
      else elim (get_router name r.routers) [
        | none ↦ (r, false)
        | some m ↦
            let (h, returned) = mux.handle method (norm_path path) (r.muxes m) in
            (record r { muxes = write_mux m h r.muxes }, returned)
      ]

  module _ {S : Type 0} (W : HttpWriter S) (encode : Payload → Bytes) (unmarshal : Bytes → Parsed)
      (error_text : AddError → Bytes) (handler_paths : H → List (Bytes × Bytes)) where
    -- the end of addRoute
    unfoldable pub report_add : Route → Server T H × Option AddError → S → Server T H × S
    report_add route (r, some err) s = (
      r,
      send W encode 422
          (response route.methode route.router route.path (error_text err) route_op_add) s,
    )
    report_add route (r, none) s =
        (r, send W encode 201 (response route.methode route.router route.path [] route_op_add) s)

    -- addRoute
    unfoldable pub add_route : Body → Server T H × S → Server T H × S
    add_route body (r, s) = elim (read_route unmarshal body) [
      | malformed e ↦ (r, send W encode 500 (op_err e route_op_add) s)
      | parsed route ↦
          report_add route
            (add lb mux checks route.router route.methode route.path route.redir_to r) s
    ]

    -- getRoute; none is a panic: the success branch calls err.Error() on the nil error
    unfoldable pub get_route : Body → Server T H × S → Option (Server T H × S)
    get_route body (r, s) = elim (read_route unmarshal body) [
      | malformed e ↦ some (r, send W encode 500 (op_err e route_op_get) s)
      | parsed route ↦ elim (get handler_paths route.router r) [
        | none ↦ some (
          r,
          send W encode 422
              (response_routes route.router (codes "router not found") route_op_get []) s,
        )
        | some rs ↦ none
      ]
    ]
