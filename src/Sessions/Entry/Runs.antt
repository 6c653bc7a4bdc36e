-- ===== src/Sessions/Entry/Runs.antt =====
-- The cache in front of a MemEntry over a whole run of calls.
use droute.Prelude.{◌≡◌, refl, sym, ◌∙◌, ap, List, [], ◌∷◌, Bytes, Map, find, arith}
use droute.Sessions.Entry.{
  Result, Session, mem_entry, CacheEntry, new_cached_entry, cached_entry, get_entry,
}
use droute.Sessions.Entry.Cached.{IsCoherent, get_cached_lem, set_cached_lem, del_cached_lem}

-- The calls that a handler makes on its session, and what they return.
pub data Call (V : Type 0) : Type 0 where
  get del : Bytes → Call V
  set : Bytes → V → Call V

pub data Reply (V : Type 0) : Type 0 where
  value : Result V → Reply V
  done : Result (Unit {0}) → Reply V

module _ {S V : Type 0} (session : Session S V) where
  abbrev pub call : Call V → S → S × Reply V
  call (get key) s = let r = session.get key s in (r.0, value r.1)
  call (del key) s = let r = session.del key s in (r.0, done r.1)
  call (set key v) s = let r = session.set key v s in (r.0, done r.1)

  abbrev pub replies : List (Call V) → S → List (Reply V)
  replies [] s = []
  replies (c ∷ calls) s = let r = call c s in r.1 ∷ replies calls r.0

module _ {V : Type 0} where
  get_entry-state : (key : Bytes) (m : Map Bytes V) → (get_entry key m).0 ≡ m
  unfolding get_entry
  get_entry-state key m = ground arith

  call_lem :
      (k : Call V) (c : CacheEntry (Map Bytes V) V)
      → IsCoherent c
      → ((call (cached_entry mem_entry) k c).1 ≡ (call mem_entry k c.sess).1)
        × ((call (cached_entry mem_entry) k c).0.sess ≡ (call mem_entry k c.sess).0)
        × IsCoherent (call (cached_entry mem_entry) k c).0
  call_lem (get key) c coherent =
      let r = get_cached_lem c key coherent in
      (ap value r.0, r.1 ∙ sym (get_entry-state key c.sess), r.2)
  call_lem (del key) c coherent = let r = del_cached_lem c key coherent in (ap done r.0, r.1, r.2)
  call_lem (set key v) c coherent =
      let r = set_cached_lem c key coherent v in (ap done r.0, r.1, r.2)

  replies_lem :
      (calls : List (Call V)) (c : CacheEntry (Map Bytes V) V)
      → IsCoherent c
      → replies (cached_entry mem_entry) calls c ≡ replies mem_entry calls c.sess
  replies_lem [] c coherent = refl
  replies_lem (k ∷ calls) c coherent =
      let r = call_lem k c coherent in
      let rest = replies_lem calls (call (cached_entry mem_entry) k c).0 r.2 in
      rw (r.0, rest, r.1) refl

  -- A handler that makes any list of Get, Set and Del calls on a new CacheEntry gets the replies that it would get from the MemEntry behind it, whatever the MemEntry held at the start.
  pub cached_entry-replies :
      (calls : List (Call V)) (s : Map Bytes V)
      → replies (cached_entry mem_entry) calls (new_cached_entry mem_entry s)
        ≡ replies mem_entry calls s
  unfolding find
  cached_entry-replies calls s =
      replies_lem calls (new_cached_entry mem_entry s) (λ q w h. ground arith)
