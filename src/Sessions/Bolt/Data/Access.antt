-- ===== src/Sessions/Bolt/Data/Access.antt =====
-- What Get of sessions/boltdb.go finds after Set and after Del.
use droute.Prelude.{
  ◌≡◌, ap, refl, sym, Option, none, some, Bytes, bytes_discrete, ite, ◌==◌, ◌++◌, arith, inl, inr,
  Bool-cases, Option-cases,
}
use droute.Sessions.Bolt.Database.{Bolt, Children}
use droute.Sessions.Bolt.Store.{Outcome, ok, err, data_not_found, ◌>>=◌}
use droute.Sessions.Bolt.Store.Transactions.{update_ok, checked_ok, checked-eq-ok}
use droute.Sessions.Bolt.Data.{
  Codec, MsgPack, RoundTrips, msg_pack_codec, stored, decoded, fetch, set_tx, set_data, del_tx,
  del_data,
}

-- What MsgPackCodec encodes, it decodes.
decode-encode :
    {V : Type 0} (pack : MsgPack V) (trips : RoundTrips pack) (v : V) (b : Bytes)
    → (msg_pack_codec pack).encode v ≡ some b
    → (msg_pack_codec pack).decode b ≡ some v
unfolding msg_pack_codec
decode-encode pack trips v b e = elim (Option-cases (pack.encode_string (pack.type_name v))) [
  | inl lost ↦ absurd (ground arith)
  | inr (name, h1) ↦ elim (Option-cases (pack.encode_value v)) [
    | inl lost ↦ absurd (ground arith)
    | inr (body, h2) ↦
        let whole : name ++ body ≡ b = ground arith in
        rw (sym whole, msg_pack_codec, trips.decode_string_encoded (pack.type_name v) name body h1)
          (trips.decode_value_encoded v body h2)
  ]
]

module _ {D V : Type 0} (bolt : Bolt D) (laws : Children bolt) (codec : Codec V) where
  open bolt use {
    has_root, has_child, make_child, child_get, child_put, child_remove, drop_child, key_count,
    commit,
  }
  open laws use {
    child_get-child_put, child_get-child_remove, child_get-make_child, child_get-drop_child,
    child_get-commit, child_get_some, emptied,
  }

  abbrev read_back : Option Bytes → Outcome V
  read_back none = err data_not_found
  read_back (some b) = decoded bolt codec (codec.decode b)

  abbrev found : Option Bytes → Outcome Bytes
  found none = err data_not_found
  found (some b) = ok b

  stored_lem : (u j : Bytes) (d : D) → stored bolt codec u j d ≡ found (child_get u j d)
  unfolding stored
  stored_lem u j d = elim (Option-cases (child_get u j d)) [
    | inr (b, there) ↦
        let (root, child) = child_get_some u j b d there in rw (stored, root, child, there) refl
    | inl absent ↦ elim (Bool-cases (has_root d)) [
      | inr rootless ↦ rw (stored, rootless, absent) refl
      | inl root ↦ elim (Bool-cases (has_child u d)) [
        | inl child ↦ rw (stored, root, child, absent) refl
        | inr childless ↦ rw (stored, root, childless, absent) refl
      ]
    ]
  ]

  fetch_lem : (u j : Bytes) (d : D) → fetch bolt codec u j d ≡ read_back (child_get u j d)
  unfolding fetch
  fetch_lem u j d = rw (fetch, stored_lem u j d) (go (child_get u j d))
    where
      go :
          (o : Option Bytes)
          → (found o >>= λ buf. decoded bolt codec (codec.decode buf)) ≡ read_back o
      go none = refl
      go (some b) = refl

  set_tx_ok :
      (u k : Bytes) (v : V) (d d' : D)
      → set_tx bolt codec u k v d ≡ ok d'
      → (b : Bytes) × (codec.encode v ≡ some b)
        × ((w j : Bytes)
            → child_get w j d'
              ≡ ite
                  (bytes_discrete u w)
                  (ite (bytes_discrete k j) (some b) (child_get w j d))
                  (child_get w j d))
  unfolding set_tx
  set_tx_ok u k v d d' e = elim (Bool-cases (has_root d)) [
    | inr rootless ↦ absurd (ground arith)
    | inl root ↦ elim (Option-cases (make_child u d)) [
      | inl lost ↦ absurd (ground arith)
      | inr (d1, h1) ↦ elim (Option-cases (codec.encode v)) [
        | inl lost ↦ absurd (ground arith)
        | inr (b, h2) ↦
            let h3 = checked_ok (child_put u k b d1) (rw (root, set_tx, h1, h2) at e) in
            (
              b,
              h2,
              λ w j. ground (
                arith,
                child_get-child_put u w k j b d1 d' h3,
                child_get-make_child u w j d d1 h1,
              ),
            )
      ]
    ]
  ]

  reread :
      (o p : Option Bytes) (x : Outcome V) (u w k j : Bytes)
      → read_back o ≡ x
      → read_back (ite (bytes_discrete u w) (ite (bytes_discrete k j) o p) p)
        ≡ ite (bytes_discrete u w) (ite (bytes_discrete k j) x (read_back p)) (read_back p)
  reread o p x u w k j e = elim (bytes_discrete u w) [
    | no n ↦ ground arith
    | yes same ↦ elim (bytes_discrete k j) [ no n ↦ ground arith | yes too ↦ ground arith ]
  ]

  fetch-set_lem :
      (u k w j : Bytes) (v : V) (d d' : D)
      → ((b : Bytes) → codec.encode v ≡ some b → codec.decode b ≡ some v)
      → set_data bolt codec u k v d ≡ (d', ok tt)
      → fetch bolt codec w j d'
        ≡ ite
            (bytes_discrete u w)
            (ite (bytes_discrete k j) (ok v) (fetch bolt codec w j d))
            (fetch bolt codec w j d)
  unfolding set_data
  fetch-set_lem u k w j v d d' back h =
      let (d1, body, done) = update_ok bolt (set_tx bolt codec u k v) d d' h in
      let (b, e, keys) = set_tx_ok u k v d d1 body in
      rw (fetch_lem w j d', fetch_lem w j d, child_get-commit w j d1 d' done, keys w j)
        (reread (some b) (child_get w j d) (ok v) u w k j (ap (decoded bolt codec) (back b e)))

  del_tx_ok :
      (u k : Bytes) (c d d' : D)
      → commit c ≡ some d
      → del_tx bolt codec u k d ≡ ok d'
      → (w j : Bytes)
      → child_get w j d'
        ≡ ite
            (bytes_discrete u w)
            (ite (bytes_discrete k j) none (child_get w j d))
            (child_get w j d)
  unfolding del_tx
  del_tx_ok u k c d d' kept e w j = elim (Option-cases (child_get u k d)) [
    | inl absent ↦ absurd (refused (rw (del_tx, stored_lem u k d, absent) at e))
    | inr (b, there) ↦
        let (d1, h1, e1) =
          checked-eq-ok (child_remove u k d) _ (rw (del_tx, stored_lem u k d, there) at e) in
        elim (Bool-cases (key_count u d1 == 0)) [
          | inr more ↦ ground (arith, child_get-child_remove u w k j d d1 h1)
          | inl last ↦
              let h2 = checked_ok (drop_child u d1) (rw last at e1) in
              let gone = emptied u k j c d d1 kept h1 (ground arith) in
              ground (
                arith,
                gone,
                child_get-child_remove u w k j d d1 h1,
                child_get-child_remove u u k j d d1 h1,
                child_get-drop_child u w j d1 d' h2,
              )
        ]
  ]
    where
      refused : ◌≡◌ {A = Outcome D} (err data_not_found) (ok d') → ⊥
      refused h = ground arith

  -- For a database that does what BoltDB documents, and that no transaction is changing: after a Del of
  -- a key that succeeds, Get of that key of that session fails with ErrSessionDataNotFound, and Get of
  -- any other key, or of a key of any other session, answers as before, also when Del has removed the
  -- session's whole bucket.
  pub fetch-del_data :
      (u k w j : Bytes) (c d d' : D)
      → commit c ≡ some d
      → del_data bolt codec u k d ≡ (d', ok tt)
      → fetch bolt codec w j d'
        ≡ ite
            (bytes_discrete u w)
            (ite (bytes_discrete k j) (err data_not_found) (fetch bolt codec w j d))
            (fetch bolt codec w j d)
  unfolding del_data
  fetch-del_data u k w j c d d' kept h =
      let (d1, body, done) = update_ok bolt (del_tx bolt codec u k) d d' h in
      rw
        (
          fetch_lem w j d',
          fetch_lem w j d,
          child_get-commit w j d1 d' done,
          del_tx_ok u k c d d1 kept body w j,
        )
        (reread none (child_get w j d) (err data_not_found) u w k j refl)

-- For a database and a msgpack that do what they document: after a Set of a value under a key that
-- succeeds, with MsgPackCodec, Get of that key of that session answers the value, also when the key
-- held another value before, and Get of any other key or session answers as before.
pub fetch-set_data :
    {D V : Type 0} (bolt : Bolt D) (laws : Children bolt) (pack : MsgPack V)
    (trips : RoundTrips pack) (u k w j : Bytes) (v : V) (d d' : D)
    → set_data bolt (msg_pack_codec pack) u k v d ≡ (d', ok tt)
    → fetch bolt (msg_pack_codec pack) w j d'
      ≡ ite
          (bytes_discrete u w)
          (ite (bytes_discrete k j) (ok v) (fetch bolt (msg_pack_codec pack) w j d))
          (fetch bolt (msg_pack_codec pack) w j d)
fetch-set_data bolt laws pack trips u k w j v d d' h =
    fetch-set_lem bolt laws (msg_pack_codec pack) u k w j v d d'
      (λ b e. decode-encode pack trips v b e) h
