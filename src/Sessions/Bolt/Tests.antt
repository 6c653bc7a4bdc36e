-- ===== src/Sessions/Bolt/Tests.antt =====
-- The theorems on sessions/boltdb.go at concrete calls.
use droute.Prelude.{
  ℕ, ◌≡◌, refl, true, false, inl, none, some, [], ◌∷◌, List, ◌++◌, arith, Bytes, codes,
  bytes_discrete, ite, find, insert, delete, length, leb,
}
use droute.Middlewares.Lists.{str_le}
use droute.Sessions.Bolt.Database.{bucket_discrete}
use droute.Sessions.Bolt.Stamp.{
  stamp, read_stamp, varint, uvarint, invert_bytes, invert_loop, put_varint, put_uvarint,
}
use droute.Sessions.Bolt.Stamp.Reading.{read_stamp-stamp}
use droute.Sessions.Bolt.Stamp.Order.{stamp_order}
use droute.Sessions.Bolt.Sample.{Sample, new_sample, sample_bolt, sample-Indexes, sample-Children}
use droute.Sessions.Bolt.Store.{
  ok, err, sess_in_use, sess_not_found, data_not_found, update, new, new_tx, open_tx, give_back,
  return_tx, is_in_use, open_store, open_store_tx, delete as delete_session, Call, call_new,
  call_restore, call_delete, call_return, after_calls, restore, restore_tx, renew_tx,
}
use droute.Sessions.Bolt.Data.{
  MsgPack, RoundTrips, msg_pack_codec, fetch, stored, set_data, set_tx, del_data, del_tx,
}
use droute.Sessions.Bolt.Data.Access.{fetch-set_data, fetch-del_data}
use droute.Sessions.Bolt.Store.Index.{Indexed, after_calls-Indexed}
use droute.Sessions.Bolt.Store.InUse.{AllKeep, opened_in_use}
use droute.Sessions.Bolt.Store.Sharing.{give_back-releases}

-- a format whose strings end with a zero, for values that are numbers of one type
unfoldable letters : MsgPack ℕ
letters = record {
  type_name = λ v. [];
  encode_string = λ s. elim s [ [] ↦ some (0 ∷ []) | c ∷ cs ↦ none ];
  encode_value = λ v. some (v ∷ []);
  decode_string = λ b. elim b [ [] ↦ none | c ∷ cs ↦ some ([], cs) ];
  decode_value = λ t b. elim b [ [] ↦ none | v ∷ vs ↦ some v ];
}

program : Unit {0}
unfolding sample_bolt update new new_tx open_tx give_back return_tx open_store open_store_tx restore
    restore_tx renew_tx bucket_discrete bytes_discrete read_stamp varint uvarint invert_bytes
    invert_loop stamp put_varint put_uvarint set_data set_tx del_data del_tx stored msg_pack_codec
    letters find insert delete
program = tt

abbrev alice : Bytes
alice = codes "a"

abbrev bob : Bytes
bob = codes "b"

read_stamp-stamp_example : read_stamp (stamp 1500000000000000000) ≡ some 1500000000000000000
read_stamp-stamp_example = read_stamp-stamp 1500000000000000000 (omega arith)

stamp_order_example : (length (stamp 255) ≡ 10) × (str_le (stamp 255) (stamp 256) ≡ leb 255 256)
stamp_order_example = stamp_order 255 256 (omega arith) (omega arith)

-- alice has come at 5 with a lease of 10
abbrev one_session : Sample
one_session = (new sample_bolt 10 alice 5 new_sample).0

one_session_done : new sample_bolt 10 alice 5 new_sample ≡ (one_session, ok tt)
unfolding program
one_session_done = refl

abbrev calls : List Call
calls = call_new bob 6 ∷ call_delete alice ∷ call_return bob ∷ call_restore bob 7 7 ∷ []

calls_keep : AllKeep alice calls
calls_keep = (tt, (tt, (ground arith, (ground arith, tt))))

opened_in_use_example :
    (is_in_use sample_bolt alice (after_calls sample_bolt 10 calls one_session) ≡ ok true)
    × (delete_session sample_bolt alice (after_calls sample_bolt 10 calls one_session)
        ≡ (after_calls sample_bolt 10 calls one_session, err sess_in_use))
opened_in_use_example =
    opened_in_use sample_bolt sample-Indexes 10 alice 5 5 new_sample one_session calls
      (inl one_session_done) calls_keep

new_sample-Indexed : Indexed sample_bolt new_sample
unfolding program
new_sample-Indexed = λ s u e. absurd (ground arith)

after_calls-Indexed_example :
    Indexed sample_bolt
      (after_calls sample_bolt 10 (call_new alice 5 ∷ call_restore alice 6 6 ∷ calls) new_sample)
after_calls-Indexed_example =
    after_calls-Indexed sample_bolt sample-Indexes 10
      (call_new alice 5 ∷ call_restore alice 6 6 ∷ calls) new_sample new_sample-Indexed

-- and alice has come a second time at 7
abbrev two_users : Sample
two_users = (restore sample_bolt 10 alice 7 7 one_session).0

abbrev one_back : Sample
one_back = (give_back sample_bolt alice two_users).0

one_back_done : give_back sample_bolt alice two_users ≡ (one_back, ok tt)
unfolding program
one_back_done = refl

give_back-releases_example :
    (is_in_use sample_bolt alice one_back ≡ ok false)
    × (give_back sample_bolt alice one_back ≡ (one_back, err sess_not_found))
give_back-releases_example =
    give_back-releases sample_bolt sample-Indexes alice two_users one_back one_back_done

reopened : open_store sample_bolt one_session ≡ ((open_store sample_bolt one_session).0, ok tt)
unfolding program
reopened = refl

letters-RoundTrips : RoundTrips letters
unfolding letters
letters-RoundTrips = record {
  decode_string_encoded = λ s b rest e. read s b rest e;
  decode_value_encoded = λ v b e. ground arith;
}
  where
    read :
        (s b rest : Bytes)
        → letters.encode_string s ≡ some b
        → letters.decode_string (b ++ rest) ≡ some (s, rest)
    read [] b rest e = ground arith
    read (c ∷ cs) b rest e = absurd (ground arith)

abbrev set_name : Sample
set_name = (set_data sample_bolt (msg_pack_codec letters) alice (codes "n") 7 one_session).0

set_name_done :
    set_data sample_bolt (msg_pack_codec letters) alice (codes "n") 7 one_session
    ≡ (set_name, ok tt)
unfolding program
set_name_done = refl

fetch-set_data_example :
    fetch sample_bolt (msg_pack_codec letters) alice (codes "n") set_name
    ≡ ite
        (bytes_discrete alice alice)
        (ite
          (bytes_discrete (codes "n") (codes "n"))
          (ok 7)
          (fetch sample_bolt (msg_pack_codec letters) alice (codes "n") one_session))
        (fetch sample_bolt (msg_pack_codec letters) alice (codes "n") one_session)
fetch-set_data_example =
    fetch-set_data sample_bolt sample-Children letters letters-RoundTrips alice (codes "n") alice
      (codes "n") 7 one_session set_name set_name_done

abbrev no_name : Sample
no_name = (del_data sample_bolt (msg_pack_codec letters) alice (codes "n") set_name).0

no_name_done :
    del_data sample_bolt (msg_pack_codec letters) alice (codes "n") set_name ≡ (no_name, ok tt)
unfolding program
no_name_done = refl

committed : sample_bolt.commit set_name ≡ some set_name
unfolding program
committed = refl

fetch-del_data_example :
    fetch sample_bolt (msg_pack_codec letters) alice (codes "n") no_name
    ≡ ite
        (bytes_discrete alice alice)
        (ite
          (bytes_discrete (codes "n") (codes "n"))
          (err data_not_found)
          (fetch sample_bolt (msg_pack_codec letters) alice (codes "n") set_name))
        (fetch sample_bolt (msg_pack_codec letters) alice (codes "n") set_name)
fetch-del_data_example =
    fetch-del_data sample_bolt sample-Children (msg_pack_codec letters) alice (codes "n") alice
      (codes "n") set_name set_name no_name committed no_name_done
