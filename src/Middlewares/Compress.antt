-- ===== src/Middlewares/Compress.antt =====
-- middlewares/compress/compress.go. The writers of gzip, lzw and flate are parameters, and the spaces of
-- strings.TrimSpace are those of ASCII. `encoding` is what UserRequest gives for the request.
pub mod Bodies
mod Tests
use mathlib.Core.List.{reverse}
use droute.Prelude.{
  ℕ, Bool, true, false, not, ◌||◌, Option, none, some, List, [], ◌∷◌, Bytes, codes, split,
  if◌then◌else◌,
}
use droute.Http.{Header, HttpWriter, header_get, header_set}
use droute.ErrHandler.{err_handler}
use droute.ResponseWriter.{ResponseWriter, new_response_writer, copy}
use droute.Router.Match.{eqb}
use droute.Router.RoundRobin.{contains}
use droute.Middlewares.BasicAuth.{is_space}

unfoldable pub trim_left : Bytes → Bytes
trim_left [] = []
trim_left (b ∷ s) = let rest = trim_left s in if is_space b then rest else b ∷ s

-- strings.TrimSpace
unfoldable pub trim_space : Bytes → Bytes
trim_space s = reverse (trim_left (reverse (trim_left s)))

abbrev pub mime_of : List Bytes → Option Bytes
mime_of [] = none
mime_of (s ∷ []) = some s
mime_of (s ∷ encoding ∷ []) = some (trim_space s)
mime_of (s ∷ encoding ∷ x ∷ more) = none

abbrev pub mime_of_value : Bytes → Option Bytes
mime_of_value [] = none
mime_of_value (c ∷ content) = mime_of (split (c ∷ content) (codes ";"))

-- the type of contentType; none is an error
unfoldable pub content_mime : Header → Option Bytes
content_mime h = mime_of_value (header_get (codes "Content-Type") h)

abbrev pub two_parts : List Bytes → Bytes × Bytes
two_parts (typ ∷ sub ∷ []) = (typ, sub)
two_parts [] = ([], [])
two_parts (typ ∷ []) = ([], [])
two_parts (typ ∷ sub ∷ x ∷ more) = ([], [])

-- splitType
unfoldable pub split_type : Bytes → Bytes × Bytes
split_type mime = two_parts (split mime (codes "/"))

-- the switch of doCompress
unfoldable pub is_compressible : Bytes × Bytes → Bool
is_compressible (typ, sub) =
    if eqb typ (codes "application")
    then contains sub (codes "javascript" ∷ codes "json" ∷ codes "rss+xml" ∷ codes "rss+atom" ∷ [])
    else if eqb typ (codes "text")
    then contains sub (
        codes "html"
        ∷ codes "javascript"
        ∷ codes "css"
        ∷ codes "markdown"
        ∷ codes "csv"
        ∷ codes "xml"
        ∷ [])
    else if eqb typ (codes "image")
    then eqb sub (codes "bmp")
    else false

-- doCompress
unfoldable pub do_compress : Header → Bool
do_compress h = elim (content_mime h) [
  | none ↦ false
  | some mime ↦ is_compressible (split_type mime)
]

pub data Algorithm : Type 0 where
  gzip lzw deflate : Algorithm

-- the encodings of the switch that compress
unfoldable pub algorithm_of : Bytes → Option Algorithm
algorithm_of encoding =
    if eqb encoding (codes "gzip")
    then some gzip
    else if eqb encoding (codes "compress")
    then some lzw
    else if eqb encoding (codes "deflate")
    then some deflate
    else none

pub data Started (Z : Type 0) : Type 0 where
  started : Z → Started Z
  start_failed : Bytes → Started Z

-- A writer that compresses: what it passes on of the bytes that it is given, with the count and the error of
-- Write, and what it passes on when it is closed
pub record Compressor (Z : Type 0) : Type 0 where
  pub start : Algorithm → Started Z
  pub feed : Bytes → Z → Z × Bytes × ℕ × Option Bytes
  pub close : Z → Bytes

abbrev pub content_encoding : Bytes
content_encoding = codes "Content-Encoding"

module _ {S Z : Type 0} (W : HttpWriter S) (zip : Compressor Z) (visit : Header → Header)
    (err_body : ℕ → Bytes → Bytes) where
  abbrev pub passed_on : S → Z × Bytes × ℕ × Option Bytes → (S × Z) × ℕ × Option Bytes
  passed_on s (z, out, n, err) = (((W.write out s).0, z), n, err)

  -- newRespWriter
  abbrev pub response : HttpWriter (S × Z)
  response = record {
    header = λ x. W.header x.0;
    with_header = λ h x. (W.with_header h x.0, x.1);
    write_header = λ code x. (W.write_header code x.0, x.1);
    write = λ p x. passed_on x.0 (zip.feed p x.1);
  }

  abbrev pub named : Bytes → S → S
  named encoding s = W.with_header (header_set content_encoding encoding (W.header s)) s

  abbrev pub fail : Option Bytes → S → S
  fail err s = err_handler W err_body 500 err s

  -- the error of Copy, and the deferred Close
  abbrev pub closed : (S × Z) × Option Bytes → S
  closed ((s, z), err) = (W.write (zip.close z) (fail err s)).0

  abbrev pub compressed : ResponseWriter → S → Started Z → S
  compressed resp s (start_failed err) = fail (some err) s
  compressed resp s (started z) = closed (copy response visit resp (s, z))

  abbrev pub copied : S × Option Bytes → S
  copied (s, err) = fail err s

  -- the switch on the encoding
  unfoldable pub encode_body : Bytes → ResponseWriter → S → S
  encode_body encoding resp s = elim (algorithm_of encoding) [
    | some a ↦ compressed resp (named encoding s) (zip.start a)
    | none ↦
        if eqb encoding (codes "identity")
        then copied (copy W visit resp (named (codes "identity") s))
        else fail (some (codes "invalid compression algorithm")) s
  ]

  -- Compress: `direct` and `inner` are the handler on w and on a response in memory
  unfoldable pub compress : (S → S) → (ResponseWriter → ResponseWriter) → Header → Bytes → S → S
  compress direct inner req_header encoding s =
      let asked = header_get content_encoding req_header in
      let plain = named (codes "identity") (direct s) in
      let resp = inner new_response_writer in
      let uncompressed = copied (copy W visit resp (named (codes "identity") s)) in
      let coded = encode_body encoding resp s in
      if eqb asked [] || eqb asked (codes "indentity")
      then plain
      else if not (do_compress resp.header)
      then uncompressed
      else coded
