-- ===== src/Router/Balance.antt =====
-- router/loadbalance.go: Balance, over any balancer. The language of a request comes from
-- httprouter and is the parameter `content_lang`.
use droute.Prelude.{
  ℕ, Bool, ◌&&◌, some, [], ◌∷◌, ◌++◌, Bytes, codes, ltb, if◌then◌else◌, trim_prefix,
}
use droute.ErrHandler.{err_handler}
use droute.ResponseWriter.{response_writer}
use droute.Router.Exchange.{Request, Exchange, HandlerFunc, Gateway, ◌>>=◌}
use droute.Router.RoundRobin.{LoadBalance}

abbrev pub no_proxy : Bytes
no_proxy = codes "no proxy ip address"

-- the two characters in front of the language, `"/"+lang`
abbrev pub slash : Bytes
slash = codes "/"

-- `code > 500 && code < 600`
abbrev pub is_fatal : ℕ → Bool
is_fatal code = ltb 500 code && ltb code 600

abbrev pub without_lang : Bytes → Bytes → Bytes
without_lang [] path = path
without_lang (b ∷ lang) path = trim_prefix path (slash ++ b ∷ lang)

module _ {S B N : Type 0} (lb : LoadBalance S) (content_lang : Request → Bytes)
    (err_body : ℕ → Bytes → Bytes) where
  -- Behind the inner handler: the removal of a server that failed. The inner handler worked on a
  -- copy of the request. With the Go versions from go.mod's 1.13 to 1.16, WithContext copies the URL, and
  -- the caller keeps its own; the header is shared. `req` is the caller's request, `y.req` the copy, to
  -- which Balance has set its variable.
  unfoldable pub after_handler :
      Request → Bytes → Exchange (Gateway S B N) → Exchange (Gateway S B N)
  after_handler req dst y =
      let kept = record y { req = record req { header = y.req.header } } in
      if is_fatal y.rw.code
      then record kept {
        world = record kept.world { lb = lb.remove req.method y.req.url.path dst kept.world.lb };
      }
      else kept

  unfoldable pub balance_to : HandlerFunc (Gateway S B N) → S × Bytes → HandlerFunc (Gateway S B N)
  balance_to handler (s, []) x = some (record x {
    world = record x.world { lb = s };
    rw = err_handler response_writer err_body 500 (some no_proxy) x.rw;
  })
  balance_to handler (s, b ∷ dst) x = do
    y ← handler (record x {
      world = record x.world { lb = s };
      req = record x.req { dst = some (b ∷ dst) };
    })
    some (after_handler x.req (b ∷ dst) y)

  unfoldable pub balance : HandlerFunc (Gateway S B N) → HandlerFunc (Gateway S B N)
  balance handler x =
      balance_to handler
        (lb.next x.req.method (without_lang (content_lang x.req) x.req.url.path) x.world.lb) x
