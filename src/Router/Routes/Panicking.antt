-- ===== src/Router/Routes/Panicking.antt =====
-- When getRoute panics, behind Start and addRoute.
use droute.Prelude.{
  ◌≡◌, refl, ◌∙◌, ap, ◌↔◌, inl, inr, Option, none, some, List, [], ◌∷◌, Bytes, arith,
  bytes_discrete, find, Option-cases,
}
use droute.ResponseWriter.{ResponseWriter, response_writer, new_response_writer}
use droute.Router.RoundRobin.{LoadBalance, norm_path}
use droute.Router.Server.{
  Server, Mux, Checks, AddError, Ref, Routers, or_else, get_router, default_router, start, add_to,
  add,
}
use droute.Router.Routes.{
  Route, Payload, Body, Parsed, parsed, read_route, get, report_add, add_route, get_route,
}
use droute.Router.Routes.Reporting.{Parsed-cases}

-- With a default router, a name always stands for a router.
named_or_default :
    (name : Bytes) (rs : Routers) (m : Ref)
    → get_router default_router rs ≡ some m
    → (n : Ref) × (get_router name rs ≡ some n)
unfolding get_router
named_or_default name rs m e = elim (Option-cases (find bytes_discrete name rs)) [
  | inr (n, there) ↦ (n, rw there refl)
  | inl absent ↦ (m, rw absent (go (find bytes_discrete default_router rs) e))
]
  where
    go : (o : Option Ref) → or_else o o ≡ some m → o ≡ some m
    go none h = h
    go (some n) h = h

module _ {S H : Type 0} (lb : LoadBalance S) (mux : Mux H) (checks : Checks)
    (encode : Payload → Bytes) (unmarshal : Bytes → Parsed) (error_text : AddError → Bytes)
    (handler_paths : H → List (Bytes × Bytes)) where
  add_to-routers :
      (m : Ref) (method path dst : Bytes) (r : Server S H)
      → (add_to lb mux checks m method path dst r).0.routers ≡ r.routers
  unfolding add_to
  add_to-routers m method path dst r = ground arith

  add-routers :
      (name method path dst : Bytes) (r : Server S H)
      → (add lb mux checks name method path dst r).0.routers ≡ r.routers
  unfolding add
  add-routers name method path dst r = elim (Option-cases (get_router name r.routers)) [
    | inl absent ↦ rw (add, absent) (ground arith)
    | inr (m, named) ↦
        rw (add, named) (ground (arith, add_to-routers m method (norm_path path) dst r))
  ]

  report_add-server :
      (route : Route) (a : Server S H × Option AddError) (s : ResponseWriter)
      → (report_add lb mux checks response_writer encode unmarshal error_text handler_paths route a
          s).0
        ≡ a.0
  unfolding report_add
  report_add-server route (r, none) s = refl
  report_add-server route (r, some err) s = refl

  abbrev pub one_added : Body → Server S H → Server S H
  one_added body r =
      (add_route lb mux checks response_writer encode unmarshal error_text handler_paths body
        (r, new_response_writer)).0

  -- The server behind requests to addRoute, in their order
  abbrev pub all_added : List Body → Server S H → Server S H
  all_added [] r = r
  all_added (body ∷ bodies) r = all_added bodies (one_added body r)

  one_added-routers : (body : Body) (r : Server S H) → (one_added body r).routers ≡ r.routers
  unfolding add_route
  one_added-routers body r = elim (Parsed-cases (read_route unmarshal body)) [
    | inl (e, bad) ↦ rw (one_added, add_route, bad) refl
    | inr (route, good) ↦
        rw (one_added, add_route, good)
          (ap (λ (q : Server S H). q.routers)
              (report_add-server route
                (add lb mux checks route.router route.methode route.path route.redir_to r)
                new_response_writer)
            ∙ add-routers route.router route.methode route.path route.redir_to r)
  ]

  all_added-routers :
      (bodies : List Body) (r : Server S H) → (all_added bodies r).routers ≡ r.routers
  all_added-routers [] r = refl
  all_added-routers (body ∷ bodies) r =
      all_added-routers bodies (one_added body r) ∙ one_added-routers body r

  start-default :
      (routers : Routers) (lb0 : S) (muxes : Ref → H) (r : Server S H)
      → start routers lb0 muxes ≡ some r
      → (m : Ref) × (get_router default_router r.routers ≡ some m)
  unfolding start
  start-default routers lb0 muxes r e = elim (Option-cases (get_router default_router routers)) [
    | inl absent ↦ absurd (ground arith)
    | inr (m, there) ↦ (m, ground arith)
  ]

  -- Behind a Start without an error and any number of requests to addRoute, getRoute panics exactly on the
  -- requests whose body it can read and parse, whatever router they name.
  pub get_route_iff :
      (routers : Routers) (lb0 : S) (muxes : Ref → H) (r0 : Server S H) (bodies : List Body)
      (body : Body) (s : ResponseWriter)
      → start routers lb0 muxes ≡ some r0
      → (get_route lb mux checks response_writer encode unmarshal error_text handler_paths body
            (all_added bodies r0, s)
          ≡ none)
        ↔ ((route : Route) × (read_route unmarshal body ≡ parsed route))
  unfolding get_route get
  get_route_iff routers lb0 muxes r0 bodies body s started = (
    λ h. elim (Parsed-cases (read_route unmarshal body)) [
      | inl (e, bad) ↦ ground arith
      | inr (route, good) ↦ (route, good)
    ],
    λ (route, good).
        let r = all_added bodies r0 in
        let (d, default) = start-default routers lb0 muxes r0 started in
        let (m, there) =
          named_or_default route.router r.routers d
            (ap (get_router default_router) (all_added-routers bodies r0) ∙ default) in
        rw (good, get_route, get, there) refl,
  )
