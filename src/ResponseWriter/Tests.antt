-- ===== src/ResponseWriter/Tests.antt =====
-- The theorem on Copy at a concrete response.
use droute.Prelude.{
  ◌≡◌, none, [], ◌∷◌, ◌++◌, Bytes, codes, bytes_discrete, find, in_order, in_order-Visits, arith,
}
use droute.Http.{values, canonical}
use droute.Http.Headers.{canonical-canonical}
use droute.ResponseWriter.{ResponseWriter, new_response_writer, response_writer, copy}
use droute.ResponseWriter.Copying.{AllCanonical, copy_lem}

abbrev answer : ResponseWriter
answer = record {
  header = (canonical (codes "x-served-by"), codes "a" ∷ []) ∷ [];
  code = 201;
  buffer = codes "made";
}

answer-AllCanonical : AllCanonical answer.header
unfolding find
answer-AllCanonical k vs h = ground (arith, canonical-canonical (codes "x-served-by"))

copy_lem_example :
    ((copy response_writer (in_order bytes_discrete) answer new_response_writer).1 ≡ none)
    × ((copy response_writer (in_order bytes_discrete) answer new_response_writer).0.buffer
        ≡ [] ++ codes "made")
    × ((copy response_writer (in_order bytes_discrete) answer new_response_writer).0.code ≡ 201)
    × ((q : Bytes)
        → values q
            (copy response_writer (in_order bytes_discrete) answer new_response_writer).0.header
          ≡ values q [] ++ values q answer.header)
copy_lem_example =
    copy_lem (in_order bytes_discrete) (in_order-Visits bytes_discrete) answer new_response_writer
      answer-AllCanonical
