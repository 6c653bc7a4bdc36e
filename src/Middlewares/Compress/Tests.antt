-- ===== src/Middlewares/Compress/Tests.antt =====
-- The theorem on Compress with a writer that keeps what it is given until it is closed.
use droute.Prelude.{
  ◌≡◌, refl, true, false, ◌||◌, Option, none, some, [], ◌∷◌, ◌++◌, Bytes, codes, bytes_discrete,
  find, split, in_order, in_order-Visits, arith, length,
}
use droute.Http.{
  Header, values, header_get, header_set, canonical, case_words, all_tokens, cased, is_lower,
  is_upper, is_token,
}
use droute.ResponseWriter.{ResponseWriter, response_writer, new_response_writer}
use droute.ResponseWriter.Copying.{AllCanonical}
use droute.Router.Match.{eqb}
use droute.Router.RoundRobin.{contains}
use droute.Middlewares.Compress.{
  Algorithm, gzip, started, Compressor, content_encoding, algorithm_of, content_mime, split_type,
  is_compressible, do_compress, compress,
}
use droute.Middlewares.Compress.Bodies.{Lossless, compress-expand}

unfoldable keeper : Compressor Bytes
keeper = record {
  start = λ a. started [];
  feed = λ p z. (z ++ p, [], length p, none);
  close = λ z. 31 ∷ z;
}

unfoldable expand : Algorithm → Bytes → Option Bytes
expand a [] = none
expand a (b ∷ s) = some s

program : Unit {0}
unfolding keeper expand do_compress content_mime split_type is_compressible header_get values
    canonical find bytes_discrete split contains eqb algorithm_of case_words all_tokens cased
    is_lower is_upper is_token
program = tt

keeper-Lossless : Lossless keeper expand
unfolding keeper expand
keeper-Lossless = record { starts = λ a. ([], refl); takes = λ a z p e. (refl, refl, ground arith) }

abbrev page : ResponseWriter → ResponseWriter
page w = record w {
  header = (codes "Content-Type", codes "text/html" ∷ []) ∷ [];
  buffer = codes "aaaa";
}

abbrev asks_gzip : Header
asks_gzip = (codes "Content-Encoding", codes "gzip" ∷ []) ∷ []

asks :
    (eqb (header_get content_encoding asks_gzip) []
      || eqb (header_get content_encoding asks_gzip) (codes "indentity"))
    ≡ false
unfolding program
asks = refl

worth : do_compress (page new_response_writer).header ≡ true
unfolding program
worth = refl

type_canonical : canonical (codes "Content-Type") ≡ codes "Content-Type"
unfolding program
type_canonical = refl

page-AllCanonical : AllCanonical (page new_response_writer).header
unfolding find
page-AllCanonical k vs e = elim (bytes_discrete (codes "Content-Type") k) [
  | yes same ↦ rw (← same) type_canonical
  | no other ↦ absurd (ground arith)
]

gzip_known : algorithm_of (codes "gzip") ≡ some gzip
unfolding program
gzip_known = refl

compress-expand_example :
    let new =
      compress response_writer keeper
        (in_order bytes_discrete)
        (λ code e. e)
        page
        page
        asks_gzip
        (codes "gzip")
        new_response_writer in
    ((data1 : Bytes) × (new.buffer ≡ [] ++ data1) × (expand gzip data1 ≡ some (codes "aaaa")))
    × (new.code ≡ 0)
    × ((q : Bytes)
        → values q new.header
          ≡ values q (header_set content_encoding (codes "gzip") [])
            ++ values q (page new_response_writer).header)
compress-expand_example =
    compress-expand keeper expand keeper-Lossless (in_order bytes_discrete)
      (in_order-Visits bytes_discrete) (λ code e. e) page page asks_gzip (codes "gzip") gzip
      new_response_writer asks worth page-AllCanonical gzip_known
