-- ===== src/Router/CircuitBrake.antt =====
-- router/circuitbrake.go. The breaker is gobreaker's: `Breakers` is what the code calls of it.
pub mod Acceptance
use droute.Prelude.{
  ℕ, ◌≡◌, refl, ◌⊎◌, inl, inr, Bool, true, false, ◌&&◌, Option, none, some, List, [], ◌∷◌, Bytes,
  Map, codes, bytes_discrete, find, insert, delete, ltb, if◌then◌else◌, arith,
}
use droute.ErrHandler.{err_handler}
use droute.ResponseWriter.{ResponseWriter, response_writer}
use droute.Router.Exchange.{Request, Exchange, HandlerFunc, Gateway, ◌>>=◌}
use droute.Router.Balance.{is_fatal}

-- A request run under a breaker gives the exchange after it, and an error or none; `none` is a
-- panic. `execute` gives the breaker's new state too.
abbrev pub Guarded : Type 0 → Type 0
Guarded X = X → Option (X × Option Bytes)

pub record Breakers (B X : Type 0) : Type 0 where
  pub new_breaker : Bytes → B
  pub execute : B → Guarded X → X → Option (B × X × Option Bytes)

abbrev pub server_fail : Bytes
server_fail = codes "server fail"

abbrev pub some_or : {A : Type 0} → Option A → A → A
some_or none a = a
some_or (some b) a = b

module _ {S B N : Type 0} (breakers : Breakers B (Exchange (Gateway S B N)))
    (err_body : ℕ → Bytes → Bytes) where
  abbrev pub with_cbs : Map Bytes B → Exchange (Gateway S B N) → Exchange (Gateway S B N)
  with_cbs cbs x = record x { world = record x.world { cbs = cbs } }

  -- the function that Execute is given
  unfoldable pub guarded : HandlerFunc (Gateway S B N) → Guarded (Exchange (Gateway S B N))
  guarded handler x = do
    y ← handler x
    some (y, if is_fatal y.rw.code then some server_fail else none)

  -- What follows Execute. The map holds the breaker by reference: its new state is stored.
  unfoldable pub finish :
      Bytes → B × Exchange (Gateway S B N) × Option Bytes → Exchange (Gateway S B N)
  finish proxy (cb, y, none) = with_cbs (insert bytes_discrete proxy cb y.world.cbs) y
  finish proxy (cb, y, some err) =
      let dropped = with_cbs (delete bytes_discrete proxy y.world.cbs) y in
      record dropped { rw = err_handler response_writer err_body 500 (some err) y.rw }

  -- CircuitBrake, for the server that the request is meant for
  unfoldable pub brake_for : HandlerFunc (Gateway S B N) → Bytes → HandlerFunc (Gateway S B N)
  brake_for handler proxy x = do
    let cb = some_or (find bytes_discrete proxy x.world.cbs) (breakers.new_breaker proxy)
    r ←
        breakers.execute cb (guarded handler)
          (with_cbs (insert bytes_discrete proxy cb x.world.cbs) x)
    some (finish proxy r)

  unfoldable pub circuit_brake : HandlerFunc (Gateway S B N) → HandlerFunc (Gateway S B N)
  circuit_brake handler x = do proxy ← x.req.dst; brake_for handler proxy x

  -- What gobreaker documents of a breaker with its default settings, for the breakers that have
  -- seen no failure: a new one is such a breaker, it accepts every request and hands back what the
  -- request gives, and a request with no error leaves it such a breaker.
  pub record Documented (Unharmed : B → Type 0) : Type 0 where
    pub starts : (name : Bytes) → Unharmed (breakers.new_breaker name)
    pub accepts :
        (b : B) (req : Guarded (Exchange (Gateway S B N))) (x y : Exchange (Gateway S B N))
        (err : Option Bytes)
        → Unharmed b
        → req x ≡ some (y, err)
        → (b' : B) × (breakers.execute b req x ≡ some (b', y, err)) × (err ≡ none → Unharmed b')

  abbrev pub AllUnharmed : (B → Type 0) → Map Bytes B → Type 0
  AllUnharmed Unharmed cbs =
      (proxy : Bytes) (b : B) → find bytes_discrete proxy cbs ≡ some b → Unharmed b
