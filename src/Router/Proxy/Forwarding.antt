-- ===== src/Router/Proxy/Forwarding.antt =====
-- What Balance and Proxy make of a request together.
use droute.Prelude.{
  ℕ, ◌≡◌, refl, ap, ◌∙◌, Option, none, some, ◌∷◌, ◌++◌, Bytes, bytes_discrete, Visits, trim_prefix,
  inl, inr, Bool-cases, if◌then◌else◌,
}
use droute.Http.{Header, values}
use droute.ResponseWriter.{ResponseWriter}
use droute.ResponseWriter.Copying.{AllCanonical, values-add_visited}
use droute.Router.Exchange.{Request, Url, Exchange, Gateway, ◌>>=◌}
use droute.Router.RoundRobin.{LoadBalance}
use droute.Router.Balance.{is_fatal, without_lang, after_handler, balance_to, balance}
use droute.Router.Proxy.{
  Network, Response, responded, apply_write, apply_writes, response_writes, forwarded, settle,
  proxy_to, proxy,
}

module _ {S B N : Type 0} (lb : LoadBalance S) (content_lang : Request → Bytes)
    (err_body : ℕ → Bytes → Bytes) (network : Network (Gateway S B N)) (visit : Header → Header)
    (visits : Visits bytes_discrete visit) where
  -- the request that Proxy sends for the destiny
  abbrev pub sent : Bytes → Bytes → Url → Url → Request → Request
  sent path dst u v req =
      forwarded network visit err_body path dst u v (record req { dst = some dst })

  forward :
      (path : Bytes) (c : ℕ) (dst : Bytes) (u v : Url) (r : Request) (rw0 : ResponseWriter)
      (w0 w : Gateway S B N) (resp : Response) (b : Bytes)
      → network.parse_url (c ∷ dst) ≡ some u
      → network.request_url (record r { dst = some (c ∷ dst) }) ≡ some v
      → network.send (sent path (c ∷ dst) u v r) w0 ≡ (w, responded resp)
      → resp.body ≡ some (b, none)
      → proxy network visit err_body path
          (record { world = w0; rw = rw0; req = record r { dst = some (c ∷ dst) } })
        ≡ some (record {
          world = w;
          req = sent path (c ∷ dst) u v r;
          rw = apply_writes (response_writes network visit err_body resp) rw0;
        })
  unfolding proxy proxy_to settle response_writes
  forward path c dst u v r rw0 w0 w resp b parsed asked out body =
      rw (proxy, proxy_to, parsed, asked, out, body) refl

  after-rw :
      (req : Request) (dst : Bytes) (y : Exchange (Gateway S B N))
      → (after_handler lb content_lang err_body req dst y).rw ≡ y.rw
  unfolding after_handler
  after-rw req dst y = elim (Bool-cases (is_fatal y.rw.code)) [
    | inl bad ↦ rw (after_handler, bad) refl
    | inr fine ↦ rw (after_handler, fine) refl
  ]

  after-lb :
      (req : Request) (dst : Bytes) (y : Exchange (Gateway S B N))
      → (after_handler lb content_lang err_body req dst y).world.lb ≡ (
          if is_fatal y.rw.code
          then lb.remove req.method y.req.url.path dst y.world.lb
          else y.world.lb)
  unfolding after_handler
  after-lb req dst y = elim (Bool-cases (is_fatal y.rw.code)) [
    | inl bad ↦ rw (after_handler, bad) refl
    | inr fine ↦ rw (after_handler, fine) refl
  ]

  written :
      (resp : Response) (b : Bytes) (x : Exchange (Gateway S B N))
      → AllCanonical resp.header
      → resp.body ≡ some (b, none)
      → let rw1 = apply_writes (response_writes network visit err_body resp) x.rw in
        (rw1.code ≡ resp.code)
        × (rw1.buffer ≡ x.rw.buffer ++ b)
        × ((q : Bytes) → values q rw1.header ≡ values q x.rw.header ++ values q resp.header)
  unfolding response_writes apply_writes apply_write
  written resp b x canon body =
      rw body (refl, refl, λ q. values-add_visited visit visits q resp.header x.rw.header canon)

  -- When the balancer gives a destiny, its URL and the request's are parsed, and the client answers in time
  -- with a response whose body is read without an error and whose header keys are in canonical form:
  -- Balance around Proxy gives the response its status, its body behind what was written before, and
  -- its header values behind those that were there; and the balancer loses the destiny, under the path
  -- that was sent and not the one that was asked for, exactly when the status is from 501 to 599.
  pub balance-proxy :
      (path : Bytes) (c : ℕ) (dst : Bytes) (u v : Url) (x : Exchange (Gateway S B N)) (s : S)
      (w : Gateway S B N) (resp : Response) (b : Bytes)
      → lb.next x.req.method (without_lang (content_lang x.req) x.req.url.path) x.world.lb
        ≡ (s, c ∷ dst)
      → network.parse_url (c ∷ dst) ≡ some u
      → network.request_url (record x.req { dst = some (c ∷ dst) }) ≡ some v
      → network.send (sent path (c ∷ dst) u v x.req) (record x.world { lb = s })
        ≡ (w, responded resp)
      → resp.body ≡ some (b, none)
      → AllCanonical resp.header
      → (y : Exchange (Gateway S B N)) × (balance lb content_lang err_body
            (proxy network visit err_body path)
            x
          ≡ some y)
        × (y.rw.code ≡ resp.code)
        × (y.rw.buffer ≡ x.rw.buffer ++ b)
        × ((q : Bytes) → values q y.rw.header ≡ values q x.rw.header ++ values q resp.header)
        × (y.world.lb ≡ (
            if is_fatal resp.code
            then lb.remove x.req.method (trim_prefix v.path path) (c ∷ dst) w.lb
            else w.lb))
  unfolding balance balance_to
  balance-proxy path c dst u v x s w resp b chosen parsed asked out body canon =
      let ran =
        forward path c dst u v x.req x.rw (record x.world { lb = s }) w resp b parsed asked out
          body in
      let y : Exchange (Gateway S B N) = record {
        world = w;
        req = sent path (c ∷ dst) u v x.req;
        rw = apply_writes (response_writes network visit err_body resp) x.rw;
      } in
      let (code, buf, head) = written resp b x canon body in
      let same = after-rw x.req (c ∷ dst) y in
      (
        after_handler lb content_lang err_body x.req (c ∷ dst) y,
        ap
              (λ (p : S × Bytes).
                balance_to lb content_lang err_body (proxy network visit err_body path) p x)
              chosen
            ∙ ap
                (λ (o : Option (Exchange (Gateway S B N))).
                  o >>= λ z. some (after_handler lb content_lang err_body x.req (c ∷ dst) z))
                ran,
        ap (λ r. r.code) same ∙ code,
        ap (λ r. r.buffer) same ∙ buf,
        λ q. ap (λ r. values q r.header) same ∙ head q,
        after-lb x.req (c ∷ dst) y
            ∙ ap
                (λ (n : ℕ).
                  if is_fatal n
                  then lb.remove x.req.method (trim_prefix v.path path) (c ∷ dst) w.lb
                  else w.lb)
                code,
      )
