-- ===== src/Sessions/Entry/Cached.antt =====
-- The cache in front of a MemEntry answers as the MemEntry does.
use droute.Prelude.{
  ◌≡◌, refl, inl, inr, some, Bytes, Map, bytes_discrete, find, insert, find-insert, find-delete,
  arith, Option-cases,
}
use droute.Sessions.Entry.{
  ok, err, data_not_found, key_exist, mem_entry, get_entry, set_entry, del_entry, CacheEntry,
  get_cached, set_cached, del_cached,
}

module _ {V : Type 0} where
  -- What the cache has stored is what the session holds.
  abbrev pub IsCoherent : CacheEntry (Map Bytes V) V → Type 0
  IsCoherent c =
      (key : Bytes) (v : V)
      → find bytes_discrete key c.store ≡ some v
      → find bytes_discrete key c.sess ≡ some v

  module _ (c : CacheEntry (Map Bytes V) V) (key : Bytes) (coherent : IsCoherent c) where
    -- A coherent cache answers Get as the session does, leaves the session alone and stays coherent.
    pub get_cached_lem :
        ((get_cached mem_entry key c).1 ≡ (get_entry key c.sess).1)
        × ((get_cached mem_entry key c).0.sess ≡ c.sess)
        × IsCoherent (get_cached mem_entry key c).0
    unfolding get_cached get_entry
    get_cached_lem = elim (Option-cases (find bytes_discrete key c.store)) [
      | inr (v, stored) ↦
          let e : get_cached mem_entry key c ≡ (c, ok v) = rw (stored, get_cached) refl in
          (rw (e, get_entry, coherent key v stored) refl, rw e refl, rw e coherent)
      | inl missing ↦ elim (Option-cases (find bytes_discrete key c.sess)) [
        | inl absent ↦
            let e : get_cached mem_entry key c ≡ (c, err data_not_found) =
              rw (missing, get_cached, absent, get_entry) refl in
            (rw (e, get_entry, absent) refl, rw e refl, rw e coherent)
        | inr (v, held) ↦
            let e : get_cached mem_entry key c
                ≡ (record { sess = c.sess; store = insert bytes_discrete key v c.store }, ok v) =
              rw (missing, get_cached, held, get_entry) refl in
            (
              rw (e, get_entry, held) refl,
              rw e refl,
              rw e (λ q w h.
                  ground (arith, find-insert bytes_discrete key q v c.store, coherent q w)),
            )
      ]
    ]

    -- So it does Set, and the session changes as it would without the cache.
    pub set_cached_lem :
        (v : V)
        → ((set_cached mem_entry key v c).1 ≡ (set_entry key v c.sess).1)
          × ((set_cached mem_entry key v c).0.sess ≡ (set_entry key v c.sess).0)
          × IsCoherent (set_cached mem_entry key v c).0
    unfolding set_cached set_entry
    set_cached_lem v = elim (Option-cases (find bytes_discrete key c.sess)) [
      | inl absent ↦
          let e : set_cached mem_entry key v c ≡ (
            record {
              sess = insert bytes_discrete key v c.sess;
              store = insert bytes_discrete key v c.store;
            },
            ok tt,
          ) =
            rw (absent, set_cached, set_entry) refl in
          (
            rw (e, set_entry, absent) refl,
            rw (e, set_entry, absent) refl,
            rw e (λ q w h. ground (
              arith,
              find-insert bytes_discrete key q v c.store,
              find-insert bytes_discrete key q v c.sess,
              coherent q w,
            )),
          )
      | inr (u, held) ↦
          let e : set_cached mem_entry key v c ≡ (c, err key_exist) =
            rw (held, set_cached, set_entry) refl in
          (rw (e, set_entry, held) refl, rw (e, set_entry, held) refl, rw e coherent)
    ]

    -- And Del.
    pub del_cached_lem :
        ((del_cached mem_entry key c).1 ≡ (del_entry key c.sess).1)
        × ((del_cached mem_entry key c).0.sess ≡ (del_entry key c.sess).0)
        × IsCoherent (del_cached mem_entry key c).0
    unfolding del_cached del_entry
    del_cached_lem = elim (Option-cases (find bytes_discrete key c.sess)) [
      | inl absent ↦ (
        refl,
        refl,
        rw (absent, del_cached, del_entry)
            (λ q w h. ground (arith, find-delete bytes_discrete key q c.store, coherent q w)),
      )
      | inr (u, held) ↦ (
        refl,
        refl,
        rw (held, del_cached, del_entry)
            (λ q w h. ground (
              arith,
              find-delete bytes_discrete key q c.store,
              find-delete bytes_discrete key q c.sess,
              coherent q w,
            )),
      )
    ]
