-- ===== src/Middlewares/Lists/Blocking.antt =====
-- IPBlock over a TextList.
use droute.Prelude.{
  ℕ, ◌≡◌, ◌≢◌, refl, ◌⊎◌, inl, inr, true, false, some, List, [], ◌∷◌, Bytes, arith, Bool-cases,
}
use droute.ErrHandler.{err_handler}
use droute.ResponseWriter.{response_writer}
use droute.Router.Exchange.{Exchange, Request, HandlerFunc}
use droute.Router.RoundRobin.{contains}
use droute.Middlewares.Lists.{text_list, allow_ip, ip_block, ip_deny}
use droute.Middlewares.Lists.Sorting.{IsOrdered}
use droute.Middlewares.Lists.Membership.{exist_text-IsOrdered}

answer_cases :
    (ip : Bytes) (l : List Bytes)
    → IsOrdered l
    → ((ip ≢ []) × (contains ip l ≡ false) × (allow_ip text_list ip (some l) ≡ true))
      ⊎ (((ip ≡ []) ⊎ (contains ip l ≡ true)) × (allow_ip text_list ip (some l) ≡ false))
unfolding allow_ip
answer_cases [] l s = inr (inl refl, refl)
answer_cases (b ∷ ip) l s =
    let e = exist_text-IsOrdered (b ∷ ip) l s in
    elim (Bool-cases (contains (b ∷ ip) l)) [
      | inl there ↦ inr (inr there, rw (e, there, allow_ip) refl)
      | inr absent ↦ inl (ground arith, absent, rw (e, absent, allow_ip) refl)
    ]

module _ {W : Type 0} (err_body : ℕ → Bytes → Bytes) (remote_ip : Request → Bytes) where
  -- IPBlock with a sorted TextList hands the request to the handler exactly when the address is known and not in the list; otherwise the answer has status 403, and nothing but the response is changed.
  pub ip_block_cases :
      (l : List Bytes) (handler : HandlerFunc W) (x : Exchange W)
      → IsOrdered l
      → ((remote_ip x.req ≢ [])
          × (contains (remote_ip x.req) l ≡ false)
          × (ip_block text_list remote_ip err_body (some l) handler x ≡ handler x))
        ⊎ (((remote_ip x.req ≡ []) ⊎ (contains (remote_ip x.req) l ≡ true))
            × ((z : Exchange W) × (ip_block text_list remote_ip err_body (some l) handler x
                  ≡ some z)
                × (z.rw.code ≡ 403)
                × (z.world ≡ x.world)
                × (z.req ≡ x.req)))
  unfolding ip_block err_handler
  ip_block_cases l handler x s = elim (answer_cases (remote_ip x.req) l s) [
    | inl (known, absent, ok) ↦ inl (known, absent, rw (ok, ip_block) refl)
    | inr (why, refused) ↦ inr (
      why,
      (
        record x { rw = err_handler response_writer err_body 403 (some ip_deny) x.rw },
        rw (refused, ip_block) refl,
        refl,
        refl,
        refl,
      ),
    )
  ]
