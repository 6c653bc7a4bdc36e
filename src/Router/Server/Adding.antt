-- ===== src/Router/Server/Adding.antt =====
-- What Router.Add leaves behind.
use droute.Prelude.{
  ℕ, ◌≡◌, refl, ap, ◌∙◌, ◌⊎◌, inl, inr, true, false, not, ◌&&◌, Option, none, some, [], ◌∷◌, Bytes,
  bytes_discrete, arith, if_pos, Option-cases, Bool-cases, ◌==◌,
}
use droute.Router.Match.{eqb}
use droute.Router.RoundRobin.{
  Paths, Ips, Table, round_robin, norm_path, contains, with_address, ips_or_new, add_addrs,
}
use droute.Router.RoundRobin.Table.{entry, entry-add_addrs}
use droute.Router.RoundRobin.Removal.{contains-append}
use droute.Router.Server.{
  Server, Mux, Checks, AddError, default_router, get_router, write_mux, add_to, valid_path, add,
}

contains-with_address : (ip : Bytes) (p : Ips) → contains ip (with_address ip p).ips ≡ true
unfolding contains eqb
contains-with_address ip p = ground (arith, contains-append ip p.ips (ip ∷ []))

entry-added_key :
    (method k path dst : Bytes) (lb : Table)
    → norm_path path ≡ k
    → entry method k (add_addrs method path dst lb)
      ≡ some (with_address dst (ips_or_new (entry method k lb)))
entry-added_key method k path dst lb e =
    entry-add_addrs method path dst method k lb
    ∙ if_pos (bytes_discrete method method) refl _ _
    ∙ if_pos (bytes_discrete (norm_path path) k) e _ _
    ∙ rw e refl

norm_path-norm_path : (path : Bytes) → norm_path (norm_path path) ≡ norm_path path
norm_path-norm_path [] = refl
norm_path-norm_path (b ∷ s) = refl

entry-added :
    (method path dst : Bytes) (lb : Table)
    → entry method (norm_path path) (add_addrs method (norm_path path) dst lb)
      ≡ some (with_address dst (ips_or_new (entry method (norm_path path) lb)))
entry-added method path dst lb =
    entry-added_key method (norm_path path) (norm_path path) dst lb (norm_path-norm_path path)

==_refl : (n : ℕ) → (n == n) ≡ true
==_refl n = ground arith

-- httprouter documents that a route is found after a Handle that returned.
abbrev pub HandledIsFound : {H : Type 0} → Mux H → Type 0
HandledIsFound {H} mux =
    (method path : Bytes) (h h' : H)
    → mux.handle method path h ≡ (h', true)
    → mux.lookup method path h' ≡ true

-- The router answers the route, and the balancer holds the server for it.
pub record Serves {H : Type 0} (mux : Mux H) (name method path dst : Bytes) (r : Server Table H)
    : Type 0 where
  pub router : ℕ
  pub named : get_router name r.routers ≡ some router
  pub answers : mux.lookup method (norm_path path) (r.muxes router) ≡ true
  pub addresses : Ips
  pub held : entry method (norm_path path) r.lb ≡ some addresses
  pub listed : contains dst addresses.ips ≡ true

-- An Add that reports an error: nothing has changed, or Handle has panicked for the router that the name
-- stands for, and nothing but this router has changed.
abbrev pub Refused :
    {H : Type 0}
    → Mux H
    → Bytes
    → Bytes
    → Bytes
    → Server Table H
    → Server Table H × Option AddError
    → Type 0
Refused mux name method path r result =
    ((err : AddError) × (result ≡ (r, some err)))
    ⊎ ((m : ℕ) × (get_router name r.routers ≡ some m)
        × (mux.lookup method (norm_path path) (r.muxes m) ≡ false)
        × ((mux.handle method (norm_path path) (r.muxes m)).1 ≡ false)
        × (result ≡ (
          record r {
            muxes = write_mux m (mux.handle method (norm_path path) (r.muxes m)).0 r.muxes;
          },
          some AddError.panicked,
        )))

module _ {H : Type 0} (visit : Paths → Paths) (mux : Mux H) (checks : Checks) where
  adds : ℕ → Bytes → Bytes → Bytes → Server Table H → Server Table H × Option AddError
  adds m method path dst r = add_to (round_robin visit) mux checks m method (norm_path path) dst r

  add_to_cases :
      (m : ℕ) (name method path dst : Bytes) (r : Server Table H)
      → HandledIsFound mux
      → get_router name r.routers ≡ some m
      → Refused mux name method path r (adds m method path dst r)
        ⊎ (((adds m method path dst r).1 ≡ none)
            × Serves mux name method path dst (adds m method path dst r).0)
  unfolding adds add_to
  add_to_cases m name method path dst r found named =
      let old = ips_or_new (entry method (norm_path path) r.lb) in
      elim (Bool-cases (mux.lookup method (norm_path path) (r.muxes m))) [
        | inl known ↦ inr (
          rw (known, adds, add_to) refl,
          rw (known, adds, add_to)
              (record {
                router = m;
                named = named;
                answers = known;
                addresses = with_address dst old;
                held = entry-added method path dst r.lb;
                listed = contains-with_address dst old;
              }),
        )
        | inr new ↦ elim (Bool-cases (mux.handle method (norm_path path) (r.muxes m)).1) [
          | inr refused ↦ inl (inr (m, named, new, refused, rw (adds, add_to, new, refused) refl))
          | inl handled ↦ inr (
            rw (new, adds, add_to, handled) refl,
            rw (new, adds, add_to, handled)
                (record {
                  router = m;
                  named = named;
                  answers = rw (==_refl m) (
                      found method (norm_path path) (r.muxes m)
                        (mux.handle method (norm_path path) (r.muxes m)).0
                        (ap (λ b. ((mux.handle method (norm_path path) (r.muxes m)).0, b))
                          handled));
                  addresses = with_address dst old;
                  held = entry-added method path dst r.lb;
                  listed = contains-with_address dst old;
                }),
          )
        ]
      ]

  -- If the routers find every route for which Handle returned, Add either reports an error, or none. With
  -- an error nothing has changed, or Handle has panicked on a route that the router which the name
  -- stands for did not know, and nothing but this router has changed, to what Handle left of it. With
  -- none, the router that the name stands for answers the method and the path, "/" for the empty one,
  -- and the balancer holds the server's address for them.
  pub add_cases :
      (name method path dst : Bytes) (r : Server Table H)
      → HandledIsFound mux
      → Refused mux name method path r (add (round_robin visit) mux checks name method path dst r)
        ⊎ (((add (round_robin visit) mux checks name method path dst r).1 ≡ none)
            × Serves mux name method path dst
                (add (round_robin visit) mux checks name method path dst r).0)
  unfolding add adds
  add_cases name method path dst r found =
      elim (Bool-cases (not (checks.check_name name 2 128) && not (eqb name default_router))) [
        | inl bad ↦ inl (inl (AddError.invalid_route_name, rw (bad, add) refl))
        | inr ok1 ↦ elim (Bool-cases (not (checks.check_name method 3 20))) [
          | inl bad ↦ inl (inl (AddError.invalid_method_name, rw (ok1, add, bad) refl))
          | inr ok2 ↦ elim (Bool-cases (not (valid_path (round_robin visit) mux checks path))) [
            | inl bad ↦ inl (inl (AddError.invalid_path_name, rw (ok1, add, ok2, bad) refl))
            | inr ok3 ↦ elim (Bool-cases (not (checks.parses dst))) [
              | inl bad ↦ inl (inl (AddError.invalid_destiny, rw (ok1, add, ok2, ok3, bad) refl))
              | inr ok4 ↦ elim (Option-cases (get_router name r.routers)) [
                | inl absent ↦
                    inl (inl (AddError.router_not_found, rw (ok1, add, ok2, ok3, ok4, absent) refl))
                | inr (m, named) ↦
                    let taken : add (round_robin visit) mux checks name method path dst r
                        ≡ adds m method path dst r =
                      rw (ok1, add, ok2, ok3, ok4, named) refl in
                    rw taken (add_to_cases m name method path dst r found named)
              ]
            ]
          ]
        ]
      ]
