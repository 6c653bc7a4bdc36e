-- ===== src/Router/Routes/Reporting.antt =====
-- What the REST interface answers.
use droute.Prelude.{ℕ, ◌≡◌, refl, ◌⊎◌, inl, inr, false, Option, none, some, List, Bytes, arith}
use droute.ResponseWriter.{ResponseWriter, response_writer}
use droute.Router.RoundRobin.{Paths, Table, round_robin, norm_path}
use droute.Router.Server.{Server, Mux, Checks, AddError, get_router, write_mux, add}
use droute.Router.Server.Adding.{HandledIsFound, Serves, add_cases}
use droute.Router.Routes.{
  Route, Payload, Body, Parsed, parsed, malformed, read_route, send, report_add, add_route,
}

pub Parsed-cases :
    (p : Parsed) → ((e : Bytes) × (p ≡ malformed e)) ⊎ ((route : Route) × (p ≡ parsed route))
Parsed-cases (malformed e) = inl (e, refl)
Parsed-cases (parsed route) = inr (route, refl)

-- What a route that Add refuses may leave: the server as it was, or all but the named router.
abbrev pub Changed : {H : Type 0} → Mux H → Route → Server Table H → Server Table H → Type 0
Changed mux route r after =
    (after ≡ r)
    ⊎ ((m : ℕ) × (get_router route.router r.routers ≡ some m)
        × ((mux.handle route.methode (norm_path route.path) (r.muxes m)).1 ≡ false)
        × (after ≡ record r {
          muxes =
              write_mux m (mux.handle route.methode (norm_path route.path) (r.muxes m)).0 r.muxes;
        }))

module _ {H : Type 0} (visit : Paths → Paths) (mux : Mux H) (checks : Checks)
    (encode : Payload → Bytes) (unmarshal : Bytes → Parsed) (error_text : AddError → Bytes)
    (handler_paths : H → List (Bytes × Bytes)) where
  report_added :
      (route : Route) (a : Server Table H × Option AddError) (s : ResponseWriter)
      → a.1 ≡ none
      → ((report_add
            (round_robin visit)
            mux
            checks
            response_writer
            encode
            unmarshal
            error_text
            handler_paths
            route
            a
            s).0
          ≡ a.0)
        × ((report_add
              (round_robin visit)
              mux
              checks
              response_writer
              encode
              unmarshal
              error_text
              handler_paths
              route
              a
              s).1.code
            ≡ 201)
  unfolding report_add send
  report_added route (r, none) s e = (refl, refl)
  report_added route (r, some err) s e = ground arith

  -- If the routers find every route for which Handle returned, addRoute answers 500 to a body that it cannot
  -- read or parse, and changes nothing; it answers 422 to a route that Add refuses, and then nothing has
  -- changed, or Handle has panicked and nothing but the router that the route names has changed;
  -- otherwise it answers 201, and the route is served by its destination.
  pub add_route_cases :
      (body : Body) (r : Server Table H) (s : ResponseWriter)
      → HandledIsFound mux
      → (((e : Bytes) × (read_route unmarshal body ≡ malformed e))
          × ((add_route
                (round_robin visit)
                mux
                checks
                response_writer
                encode
                unmarshal
                error_text
                handler_paths
                body
                (r, s)).0
              ≡ r)
          × ((add_route
                (round_robin visit)
                mux
                checks
                response_writer
                encode
                unmarshal
                error_text
                handler_paths
                body
                (r, s)).1.code
              ≡ 500))
        ⊎ ((route : Route) × (read_route unmarshal body ≡ parsed route)
            × (((Changed mux route r
                    (add_route
                      (round_robin visit)
                      mux
                      checks
                      response_writer
                      encode
                      unmarshal
                      error_text
                      handler_paths
                      body
                      (r, s)).0)
                  × ((add_route
                        (round_robin visit)
                        mux
                        checks
                        response_writer
                        encode
                        unmarshal
                        error_text
                        handler_paths
                        body
                        (r, s)).1.code
                      ≡ 422))
                ⊎ (Serves mux route.router route.methode route.path route.redir_to
                      (add_route
                        (round_robin visit)
                        mux
                        checks
                        response_writer
                        encode
                        unmarshal
                        error_text
                        handler_paths
                        body
                        (r, s)).0
                    × ((add_route
                          (round_robin visit)
                          mux
                          checks
                          response_writer
                          encode
                          unmarshal
                          error_text
                          handler_paths
                          body
                          (r, s)).1.code
                        ≡ 201))))
  unfolding add_route report_add send
  add_route_cases body r s found = elim (Parsed-cases (read_route unmarshal body)) [
    | inl (e, bad) ↦ inl ((e, bad), rw (bad, add_route) refl, rw (bad, add_route) refl)
    | inr (route, good) ↦
        elim (add_cases visit mux checks route.router route.methode route.path route.redir_to r
          found) [
            | inl (inl (err, refused)) ↦ inr (
              route,
              good,
              inl (rw (good, add_route, refused) (inl refl), rw (good, add_route, refused) refl),
            )
            | inl (inr (m, named, new, panics, refused)) ↦ inr (
              route,
              good,
              inl (
                rw (good, add_route, refused) (inr (m, named, panics, refl)),
                rw (good, add_route, refused) refl,
              ),
            )
            | inr (taken, serves) ↦
                let added =
                  add (round_robin visit) mux checks route.router route.methode route.path
                    route.redir_to r in
                let (same, code) = report_added route added s taken in
                inr
                  (route, good, inr (rw (good, add_route, same) serves, rw (good, add_route) code))
          ]
  ]
