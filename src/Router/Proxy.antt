-- ===== src/Router/Proxy.antt =====
-- router/proxy.go: Proxy. The client of net/http, url.Parse, the address of a request (fhttp.Url) and the
-- texts of pushed errors are parameters. What the goroutine of a request writes to the response is a
-- list of writes; if the timeout comes first, only a first part of them is there when Proxy returns, and
-- what the goroutine writes afterwards is not modelled.
pub mod Forwarding
mod Tests
use droute.Prelude.{
  ℕ, zero, suc, ◌≡◌, Bool, true, false, Option, none, some, List, [], ◌∷◌, ◌++◌, Bytes, codes, take,
  trim_prefix, if◌then◌else◌,
}
use droute.Http.{Header, header_add}
use droute.ErrHandler.{err_handler}
use droute.ResponseWriter.{ResponseWriter, response_writer, write, add_entries}
use droute.Router.Exchange.{Request, Url, Exchange, HandlerFunc}

-- http.Response: the bytes that can be read of its body and the error of the reading; none is no body
pub record Response : Type 0 where
  pub code : ℕ
  pub header : Header
  pub body : Option (Bytes × Option Bytes)

-- What comes of HTTPClient.Do and the select: a response in time, an error in time, or the timeout before
-- any response, or after so many of the writes of a response
pub data Outcome : Type 0 where
  responded : Response → Outcome
  failed : Bytes → Outcome
  silent : Outcome
  late : ℕ → Response → Outcome

pub data Write : Type 0 where
  add_headers : Header → Write
  set_code : ℕ → Write
  put_body : Bytes → Write

unfoldable pub apply_write : Write → ResponseWriter → ResponseWriter
apply_write (add_headers h) rw = record rw { header = add_entries h rw.header }
apply_write (set_code code) rw = record rw { code = code }
apply_write (put_body b) rw = (write b rw).0

unfoldable pub apply_writes : List Write → ResponseWriter → ResponseWriter
apply_writes [] rw = rw
apply_writes (w ∷ ws) rw = apply_writes ws (apply_write w rw)

abbrev pub body_writes : Option (Bytes × Option Bytes) → List Write
body_writes none = []
body_writes (some (b, e)) = put_body b ∷ []

abbrev pub body_error : Option (Bytes × Option Bytes) → Option Bytes
body_error none = none
body_error (some (b, e)) = e

abbrev pub no_destiny : Bytes
no_destiny = codes "no destiny"

abbrev pub proxy_timeout : Bytes
proxy_timeout = codes "proxy request timeout"

-- The client, url.Parse and fhttp.Url, whose errors are the texts with which Proxy answers
pub record Network (W : Type 0) : Type 0 where
  pub send : Request → W → W × Outcome
  pub parse_url : Bytes → Option Url
  pub request_url : Request → Option Url
  pub inv_destiny : Bytes → Bytes
  pub inv_request : Request → Bytes
  pub cant_forward : Bytes → Bytes

module _ {W : Type 0} (network : Network W) (visit : Header → Header)
    (err_body : ℕ → Bytes → Bytes) where
  open network use {send, parse_url, request_url, inv_destiny, inv_request, cant_forward}

  abbrev pub fail : ℕ → Bytes → Exchange W → Exchange W
  fail code err x = record x { rw = err_handler response_writer err_body code (some err) x.rw }

  -- the request as it is sent
  abbrev pub forwarded : Bytes → Bytes → Url → Url → Request → Request
  forwarded path dst parsed uurl r = record r {
    host = parsed.host;
    url = record { scheme = parsed.scheme; host = parsed.host; path = trim_prefix uurl.path path };
    request_uri = [];
    header = header_add (codes "X-Dst-Serv") dst r.header;
  }

  -- the writes of the goroutine, in their order
  unfoldable pub response_writes : Response → List Write
  response_writes resp =
      add_headers (visit resp.header) ∷ set_code resp.code ∷ body_writes resp.body

  abbrev pub with_writes : List Write → Exchange W → Exchange W
  with_writes ws x = record x { rw = apply_writes ws x.rw }

  abbrev pub fail_body : Option Bytes → Exchange W → Exchange W
  fail_body none x = x
  fail_body (some e) x = fail 500 e x

  -- the select
  unfoldable pub settle : Outcome → Exchange W → Exchange W
  settle (responded resp) x =
      fail_body (body_error resp.body) (with_writes (response_writes resp) x)
  settle (failed err) x = fail 500 (cant_forward err) x
  settle silent x = fail 408 proxy_timeout x
  settle (late n resp) x = fail 408 proxy_timeout (with_writes (take n (response_writes resp)) x)

  abbrev pub send_settled : Exchange W → Exchange W
  send_settled x = let (w, out) = send x.req x.world in settle out (record x { world = w })

  -- Proxy for a destiny that is there
  unfoldable pub proxy_to : Bytes → Bytes → Exchange W → Exchange W
  proxy_to path [] x = fail 500 no_destiny x
  proxy_to path (c ∷ dst) x = elim (parse_url (c ∷ dst)) [
    | none ↦ fail 500 (inv_destiny (c ∷ dst)) x
    | some parsed ↦ elim (request_url x.req) [
      | none ↦ fail 500 (inv_request x.req) x
      | some uurl ↦ send_settled (record x { req = forwarded path (c ∷ dst) parsed uurl x.req })
    ]
  ]

  -- Proxy; a request without a destiny in its context panics
  unfoldable pub proxy : Bytes → HandlerFunc W
  proxy path x = elim x.req.dst [ none ↦ none | some dst ↦ some (proxy_to path dst x) ]
