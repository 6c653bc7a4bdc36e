-- ===== src/Router/Exchange.antt =====
-- The request and the handler type that the router's handlers share (responsewriter.HandlerFunc).
-- A handler changes the response, the request and the rest of the program; `none` is a panic.
use droute.Prelude.{Option, none, some, Bytes, Map}
use droute.Http.{Header}
use droute.ResponseWriter.{ResponseWriter}

pub record Url : Type 0 where
  pub scheme : Bytes
  pub host : Bytes
  pub path : Bytes

-- What the handlers use of http.Request. `dst` is the context's value "proxyredirdst". The field `url`
-- is a pointer, and `header` a map: WithContext copies the URL, and shares the header.
pub record Request : Type 0 where
  pub method : Bytes
  pub host : Bytes
  pub request_uri : Bytes
  pub dst : Option Bytes
  pub url : Url
  pub header : Header

pub record Exchange (W : Type 0) : Type 0 where
  pub world : W
  pub rw : ResponseWriter
  pub req : Request

abbrev pub HandlerFunc : Type 0 → Type 0
HandlerFunc W = Exchange W → Option (Exchange W)

infixl 5 ◌>>=◌
abbrev pub ◌>>=◌ : {A B : Type 0} → Option A → (A → Option B) → Option B
none >>= f = none
some a >>= f = f a

-- The state that the chain of Router.Add works on: the balancer, the breakers of `cbs`, and the
-- network.
pub record Gateway (S B N : Type 0) : Type 0 where
  pub lb : S
  pub cbs : Map Bytes B
  pub net : N
