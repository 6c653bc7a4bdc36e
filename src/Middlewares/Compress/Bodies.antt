-- ===== src/Middlewares/Compress/Bodies.antt =====
-- What a client can read of a compressed response.
use mathlib.Core.List.{append_assoc}
use droute.Prelude.{
  ℕ, ◌≡◌, refl, sym, ap, ◌∙◌, true, false, ◌||◌, Option, none, some, [], ◌++◌, Bytes,
  bytes_discrete, codes, length, Visits, arith, inl, inr, Bool-cases, ◌==◌, if◌then◌else◌,
}
use droute.Http.{Header, HttpWriter, values, header_get, header_set}
use droute.ErrHandler.{err_handler}
use droute.ResponseWriter.{
  ResponseWriter, response_writer, new_response_writer, add_entries, send_code, send_body, copy,
}
use droute.ResponseWriter.Copying.{AllCanonical, values-add_visited}
use droute.Router.Match.{eqb}
use droute.Middlewares.Compress.{
  Algorithm, algorithm_of, started, Compressor, content_encoding, do_compress, passed_on, response,
  named, closed, encode_body, compress,
}

-- What the packages of compress document: a writer takes all the bytes of a Write, and what it has passed
-- on when it is closed is read back by the decompressor.
pub record Lossless {Z : Type 0} (zip : Compressor Z) (expand : Algorithm → Bytes → Option Bytes)
    : Type 0 where
  pub starts : (a : Algorithm) → (z : Z) × (zip.start a ≡ started z)
  pub takes :
      (a : Algorithm) (z : Z) (p : Bytes)
      → zip.start a ≡ started z
      → ((zip.feed p z).2 ≡ length p)
        × ((zip.feed p z).3 ≡ none)
        × (expand a ((zip.feed p z).1 ++ zip.close (zip.feed p z).0) ≡ some p)

module _ {Z : Type 0} (zip : Compressor Z) (expand : Algorithm → Bytes → Option Bytes)
    (lossless : Lossless zip expand) (visit : Header → Header)
    (visits : Visits bytes_discrete visit) (err_body : ℕ → Bytes → Bytes) where
  abbrev through : HttpWriter (ResponseWriter × Z)
  through = response response_writer zip visit err_body

  code-through :
      (code : ℕ) (s : ResponseWriter) (z : Z)
      → send_code through code (s, z) ≡ (record s { code = if code == 0 then s.code else code }, z)
  unfolding send_code
  code-through code s z = elim (Bool-cases (code == 0)) [
    | inl none_set ↦ rw (send_code, none_set) refl
    | inr is_set ↦ rw (send_code, is_set) refl
  ]

  body-through :
      (p : Bytes) (s : ResponseWriter) (z z1 : Z) (out : Bytes)
      → zip.feed p z ≡ (z1, out, length p, none)
      → send_body through p (s, z) ≡ ((record s { buffer = s.buffer ++ out }, z1), none)
  unfolding send_body
  body-through p s z z1 out e =
      let whole : (length p == length p) ≡ true = ground arith in
      let w : through.write p (s, z)
          ≡ ((record s { buffer = s.buffer ++ out }, z1), length p, none) =
        ap (passed_on response_writer zip visit err_body s) e in
      let no_err : (through.write p (s, z)).2 ≡ none = ap (λ r. r.2) w in
      let count : ((through.write p (s, z)).1 == length p) ≡ true =
        ap (λ r. r.1 == length p) w ∙ whole in
      rw (send_body, no_err, count) (ap (λ r. (r.0, none)) w)

  -- what Copy and Close leave, for what the writer did
  closed-copy :
      (resp s : ResponseWriter) (z z1 : Z) (out : Bytes)
      → zip.feed resp.buffer z ≡ (z1, out, length resp.buffer, none)
      → closed response_writer zip visit err_body (copy through visit resp (s, z)) ≡ record {
        header = add_entries (visit resp.header) s.header;
        code = if resp.code == 0 then s.code else resp.code;
        buffer = (s.buffer ++ out) ++ zip.close z1;
      }
  unfolding copy err_handler
  closed-copy resp s z z1 out e =
      let s1 : ResponseWriter = record s { header = add_entries (visit resp.header) s.header } in
      let s2 : ResponseWriter = record s1 { code = if resp.code == 0 then s.code else resp.code } in
      ap (λ x. closed response_writer zip visit err_body (send_body through resp.buffer x))
        (code-through resp.code s1 z)
      ∙ ap (closed response_writer zip visit err_body) (body-through resp.buffer s2 z z1 out e)

  fed :
      (a : Algorithm) (z : Z) (p : Bytes)
      → zip.start a ≡ started z
      → (z1 : Z) × (out : Bytes) × (zip.feed p z ≡ (z1, out, length p, none))
        × (expand a (out ++ zip.close z1) ≡ some p)
  fed a z p e = go (zip.feed p z) refl
    where
      go :
          (r : Z × Bytes × ℕ × Option Bytes)
          → zip.feed p z ≡ r
          → (z1 : Z) × (out : Bytes) × (zip.feed p z ≡ (z1, out, length p, none))
            × (expand a (out ++ zip.close z1) ≡ some p)
      go (z1, out, n, err) h =
          let (whole, fine, back) = lossless.takes a z p e in
          let x : n ≡ length p = sym (ap (λ r. r.2) h) ∙ whole in
          let y : err ≡ none = sym (ap (λ r. r.3) h) ∙ fine in
          (
            z1,
            out,
            rw (← x, ← y) h,
            ap (λ (r : Z × Bytes × ℕ × Option Bytes). expand a (r.1 ++ zip.close r.0)) (sym h)
                ∙ back,
          )

  -- When the request names an encoding that Compress does not take as identity, the handler's type of
  -- content is one that is compressed, and its header keys are in canonical form, then for an encoding
  -- with an algorithm Compress sends the handler's status, appends bytes from which the algorithm
  -- gives back the handler's whole body, sets Content-Encoding to the encoding, and adds all the
  -- handler's header values, that of Content-Length included.
  pub compress-expand :
      (direct inner : ResponseWriter → ResponseWriter) (req_header : Header) (encoding : Bytes)
      (a : Algorithm) (s : ResponseWriter)
      → (eqb (header_get content_encoding req_header) []
          || eqb (header_get content_encoding req_header) (codes "indentity"))
        ≡ false
      → do_compress (inner new_response_writer).header ≡ true
      → AllCanonical (inner new_response_writer).header
      → algorithm_of encoding ≡ some a
      → let resp = inner new_response_writer in
        let new = compress response_writer zip visit err_body direct inner req_header encoding s in
        ((data1 : Bytes) × (new.buffer ≡ s.buffer ++ data1) × (expand a data1 ≡ some resp.buffer))
        × (new.code ≡ (if resp.code == 0 then s.code else resp.code))
        × ((q : Bytes)
            → values q new.header
              ≡ values q (header_set content_encoding encoding s.header) ++ values q resp.header)
  unfolding compress encode_body
  compress-expand direct inner req_header encoding a s asked worth canon known =
      let resp = inner new_response_writer in
      let (z, begun) = lossless.starts a in
      let (z1, out, e, back) = fed a z resp.buffer begun in
      let named_s = named response_writer zip visit err_body encoding s in
      let result : compress response_writer zip visit err_body direct inner req_header encoding s
          ≡ record {
            header = add_entries (visit resp.header) named_s.header;
            code = if resp.code == 0 then s.code else resp.code;
            buffer = (s.buffer ++ out) ++ zip.close z1;
          } =
        rw (compress, asked, worth, encode_body, known, begun)
          (closed-copy resp named_s z z1 out e) in
      (
        (
          out ++ zip.close z1,
          ap (λ r. r.buffer) result ∙ append_assoc s.buffer out (zip.close z1),
          back,
        ),
        ap (λ r. r.code) result,
        λ q.
            ap (λ r. values q r.header) result
            ∙ values-add_visited visit visits q resp.header named_s.header canon,
      )
