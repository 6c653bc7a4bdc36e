-- ===== src/Router/CircuitBrake/Acceptance.antt =====
-- A breaker of the proxy never rejects a request.
use droute.Prelude.{
  ℕ, ◌≡◌, refl, inl, inr, Option, none, some, Bytes, Map, bytes_discrete, find, insert, delete,
  find-insert, find-delete, if◌then◌else◌, arith, Option-cases, Bool-cases, ap, ◌∙◌,
}
use droute.ErrHandler.{err_handler}
use droute.ResponseWriter.{response_writer}
use droute.Router.Exchange.{Exchange, HandlerFunc, Gateway, ◌>>=◌}
use droute.Router.Balance.{is_fatal}
use droute.Router.CircuitBrake.{
  Breakers, Documented, AllUnharmed, server_fail, some_or, with_cbs, guarded, finish, brake_for,
  circuit_brake,
}

module _ {S B N : Type 0} (breakers : Breakers B (Exchange (Gateway S B N)))
    (err_body : ℕ → Bytes → Bytes) (Unharmed : B → Type 0) where
  -- The exchange that the inner handler is given: the breaker of the server is in the map.
  abbrev pub prepared : Bytes → Exchange (Gateway S B N) → Exchange (Gateway S B N)
  prepared proxy x =
      with_cbs breakers err_body
        (insert bytes_discrete proxy
          (some_or (find bytes_discrete proxy x.world.cbs) (breakers.new_breaker proxy))
          x.world.cbs)
        x

  some_or-Unharmed :
      (proxy : Bytes) (cbs : Map Bytes B)
      → Documented breakers err_body Unharmed
      → AllUnharmed breakers err_body Unharmed cbs
      → Unharmed (some_or (find bytes_discrete proxy cbs) (breakers.new_breaker proxy))
  some_or-Unharmed proxy cbs doc all = elim (Option-cases (find bytes_discrete proxy cbs)) [
    | inl absent ↦ rw absent (doc.starts proxy)
    | inr (b, held) ↦ rw held (all proxy b held)
  ]

  AllUnharmed-insert :
      (proxy : Bytes) (b : B) (cbs : Map Bytes B)
      → Unharmed b
      → AllUnharmed breakers err_body Unharmed cbs
      → AllUnharmed breakers err_body Unharmed (insert bytes_discrete proxy b cbs)
  AllUnharmed-insert proxy b cbs h all q c e = elim (bytes_discrete proxy q) [
    | yes same ↦
        let stored : b ≡ c = ground (arith, find-insert bytes_discrete proxy q b cbs) in
        rw (← stored) h
    | no other ↦ all q c (ground (arith, find-insert bytes_discrete proxy q b cbs))
  ]

  AllUnharmed-delete :
      (proxy : Bytes) (cbs : Map Bytes B)
      → AllUnharmed breakers err_body Unharmed cbs
      → AllUnharmed breakers err_body Unharmed (delete bytes_discrete proxy cbs)
  AllUnharmed-delete proxy cbs all q c e =
      all q c (ground (arith, find-delete bytes_discrete proxy q cbs))

  finish-AllUnharmed :
      (proxy : Bytes) (b : B) (y : Exchange (Gateway S B N)) (err : Option Bytes)
      → (err ≡ none → Unharmed b)
      → AllUnharmed breakers err_body Unharmed y.world.cbs
      → AllUnharmed breakers err_body Unharmed
          (finish breakers err_body proxy (b, y, err)).world.cbs
  unfolding finish
  finish-AllUnharmed proxy b y none still all =
      AllUnharmed-insert proxy b y.world.cbs (still refl) all
  finish-AllUnharmed proxy b y (some err) still all = AllUnharmed-delete proxy y.world.cbs all

  finish-rw :
      (proxy : Bytes) (b : B) (y : Exchange (Gateway S B N))
      → (finish breakers err_body proxy
          (b, y, if is_fatal y.rw.code then some server_fail else none)).rw
        ≡ (if is_fatal y.rw.code
            then err_handler response_writer err_body 500 (some server_fail) y.rw
            else y.rw)
  unfolding finish
  finish-rw proxy b y = elim (Bool-cases (is_fatal y.rw.code)) [
    | inl failed ↦ rw failed refl
    | inr fine ↦ rw fine refl
  ]

  -- Let the breakers behave as documented, no breaker of the map have seen a failure, and the inner handler return without changing the map. Then the request was handed to the inner handler, its response is passed on unless its status is from 501 to 599, in which case the error "server fail" is added with status 500, and again no breaker of the map has seen a failure.
  pub circuit_brake-AllUnharmed :
      (handler : HandlerFunc (Gateway S B N)) (proxy : Bytes) (x y : Exchange (Gateway S B N))
      → Documented breakers err_body Unharmed
      → AllUnharmed breakers err_body Unharmed x.world.cbs
      → x.req.dst ≡ some proxy
      → handler (prepared proxy x) ≡ some y
      → y.world.cbs ≡ (prepared proxy x).world.cbs
      → (z : Exchange (Gateway S B N)) × (circuit_brake breakers err_body handler x ≡ some z)
        × AllUnharmed breakers err_body Unharmed z.world.cbs
        × (z.rw ≡ (
            if is_fatal y.rw.code
            then err_handler response_writer err_body 500 (some server_fail) y.rw
            else y.rw))
  unfolding circuit_brake brake_for guarded
  circuit_brake-AllUnharmed handler proxy x y doc all dst ran kept =
      let cb = some_or (find bytes_discrete proxy x.world.cbs) (breakers.new_breaker proxy) in
      let unharmed = some_or-Unharmed proxy x.world.cbs doc all in
      let err = if is_fatal y.rw.code then some server_fail else none in
      let (b', executed, still) =
        doc.accepts cb (guarded breakers err_body handler) (prepared proxy x) y err unharmed
          (rw (ran, guarded) refl) in
      (
        finish breakers err_body proxy (b', y, err),
        ap (λ (o : Option Bytes). o >>= λ p. brake_for breakers err_body handler p x) dst
            ∙ rw (executed, brake_for) refl,
        finish-AllUnharmed proxy b' y err still
            (rw kept (AllUnharmed-insert proxy cb x.world.cbs unharmed all)),
        finish-rw proxy b' y,
      )
