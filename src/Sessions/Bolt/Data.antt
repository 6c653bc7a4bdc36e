-- ===== src/Sessions/Bolt/Data.antt =====
-- sessions/boltdb.go: the data of a session, SessionBoltDB, and its codec MsgPackCodec. The store keeps
-- it in a bucket of the session inside bUUID.
pub mod Access
use droute.Prelude.{ℕ, ◌≡◌, Bool, true, false, Option, none, some, Bytes, if◌then◌else◌, ◌==◌, ◌++◌}
use droute.Sessions.Bolt.Database.{Bolt}
use droute.Sessions.Bolt.Store.{
  Outcome, ok, err, data_not_found, cant_store, cant_decode, codec_failed, checked, update, ◌>>=◌,
}

-- Codec: an error of it is none.
pub record Codec (V : Type 0) : Type 0 where
  pub encode : V → Option Bytes
  pub decode : Bytes → Option V

-- What MsgPackCodec calls of msgpack and of the registry of types: EncodeString, Encode, DecodeString with
-- the bytes that it leaves, and DecodeValue into a new value of the named type.
pub record MsgPack (V : Type 0) : Type 0 where
  pub type_name : V → Bytes
  pub encode_string : Bytes → Option Bytes
  pub encode_value : V → Option Bytes
  pub decode_string : Bytes → Option (Bytes × Bytes)
  pub decode_value : Bytes → Bytes → Option V

module _ {V : Type 0} (pack : MsgPack V) where
  open pack use {type_name, encode_string, encode_value, decode_string, decode_value}

  -- MsgPackCodec
  unfoldable pub msg_pack_codec : Codec V
  msg_pack_codec = record {
    encode = λ v. elim (encode_string (type_name v)) [
      | none ↦ none
      | some name ↦ elim (encode_value v) [ none ↦ none | some body ↦ some (name ++ body) ]
    ];
    decode =
        λ b. elim (decode_string b) [ none ↦ none | some (name, rest) ↦ decode_value name rest ];
  }

  -- What msgpack documents, for values of registered types
  pub record RoundTrips : Type 0 where
    pub decode_string_encoded :
        (s b rest : Bytes) → encode_string s ≡ some b → decode_string (b ++ rest) ≡ some (s, rest)
    pub decode_value_encoded :
        (v : V) (b : Bytes) → encode_value v ≡ some b → decode_value (type_name v) b ≡ some v

module _ {D V : Type 0} (bolt : Bolt D) (codec : Codec V) where
  open bolt use {
    has_root, has_child, make_child, drop_child, child_get, child_put, child_remove, key_count,
  }
  open codec use {encode, decode}

  -- the bytes that Get and Del find
  unfoldable pub stored : Bytes → Bytes → D → Outcome Bytes
  stored uuid key d =
      if has_root d
      then (if has_child uuid d
          then elim (child_get uuid key d) [ none ↦ err data_not_found | some buf ↦ ok buf ]
          else err data_not_found)
      else err data_not_found

  abbrev pub decoded : Option V → Outcome V
  decoded none = err cant_decode
  decoded (some v) = ok v

  -- Get
  unfoldable pub fetch : Bytes → Bytes → D → Outcome V
  fetch uuid key d = do buf ← stored uuid key d; decoded (decode buf)

  abbrev pub child_made : Option D → Outcome D
  child_made none = err cant_store
  child_made (some d) = ok d

  abbrev pub encoded : Option Bytes → Outcome Bytes
  encoded none = err codec_failed
  encoded (some b) = ok b

  -- the transaction of Set
  unfoldable pub set_tx : Bytes → Bytes → V → D → Outcome D
  set_tx uuid key v d =
      if has_root d
      then (do
        d1 ← child_made (make_child uuid d)
        buf ← encoded (encode v)
        checked (child_put uuid key buf d1))
      else err cant_store

  -- Set
  unfoldable pub set_data : Bytes → Bytes → V → D → D × Outcome (Unit {0})
  set_data uuid key v d = update bolt (set_tx uuid key v) d

  -- the transaction of Del
  unfoldable pub del_tx : Bytes → Bytes → D → Outcome D
  del_tx uuid key d = do
    buf ← stored uuid key d
    d1 ← checked (child_remove uuid key d)
    if key_count uuid d1 == 0 then checked (drop_child uuid d1) else ok d1

  -- Del
  unfoldable pub del_data : Bytes → Bytes → D → D × Outcome (Unit {0})
  del_data uuid key d = update bolt (del_tx uuid key) d
