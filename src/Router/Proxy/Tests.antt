-- ===== src/Router/Proxy/Tests.antt =====
-- The theorem on Balance and Proxy at a concrete request.
use droute.Prelude.{
  ℕ, ◌≡◌, refl, none, some, [], ◌++◌, Bytes, codes, bytes_discrete, in_order, in_order-Visits, find,
  trim_prefix, arith, if◌then◌else◌,
}
use droute.Http.{values}
use droute.ResponseWriter.{new_response_writer}
use droute.ResponseWriter.Copying.{AllCanonical}
use droute.Router.Exchange.{Request, Url, Exchange, Gateway}
use droute.Router.RoundRobin.{redir_dst}
use droute.Router.Balance.{is_fatal, balance}
use droute.Router.Proxy.{Network, Response, responded, proxy}
use droute.Router.Proxy.Forwarding.{balance-proxy}

abbrev World : Type 0
World = Gateway Bytes ℕ (Unit {0})

abbrev bad_gateway : Response
bad_gateway = record { code = 502; header = []; body = some (codes "bad", none) }

abbrev backend : Url
backend = record { scheme = codes "http"; host = codes "a"; path = [] }

abbrev asked_url : Url
asked_url = record { scheme = codes "http"; host = codes "www"; path = codes "/x" }

abbrev network : Network World
network = record {
  send = λ r w. (w, responded bad_gateway);
  parse_url = λ dst. some backend;
  request_url = λ r. some asked_url;
  inv_destiny = λ dst. [];
  inv_request = λ r. [];
  cant_forward = λ e. e;
}

abbrev world : World
world = record { lb = codes "http://a"; cbs = []; net = tt }

abbrev request : Request
request = record {
  method = codes "GET";
  host = codes "www";
  request_uri = codes "/x";
  dst = none;
  url = asked_url;
  header = [];
}

abbrev asked : Exchange World
asked = record { world = world; rw = new_response_writer; req = request }

no_keys-AllCanonical : AllCanonical []
unfolding find
no_keys-AllCanonical k vs e = absurd (ground arith)

balance-proxy_example :
    (y : Exchange World) × (balance redir_dst
        (λ r. [])
        (λ code e. e)
        (proxy network (in_order bytes_discrete) (λ code e. e) [])
        asked
      ≡ some y)
    × (y.rw.code ≡ 502)
    × (y.rw.buffer ≡ [] ++ codes "bad")
    × ((q : Bytes) → values q y.rw.header ≡ values q [] ++ values q [])
    × (y.world.lb ≡ (
        if is_fatal 502
        then redir_dst.remove
            (codes "GET")
            (trim_prefix (codes "/x") [])
            (codes "http://a")
            world.lb
        else world.lb))
balance-proxy_example =
    balance-proxy redir_dst (λ r. []) (λ code e. e) network (in_order bytes_discrete)
      (in_order-Visits bytes_discrete) [] b'h' (codes "ttp://a") backend asked_url asked
      (codes "http://a") world bad_gateway (codes "bad") refl refl refl refl refl
      no_keys-AllCanonical
