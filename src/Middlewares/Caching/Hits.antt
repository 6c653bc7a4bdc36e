-- ===== src/Middlewares/Caching/Hits.antt =====
-- What Cache answers from the storage.
use droute.Prelude.{
  ℕ, ◌≤◌, ◌≡◌, ◌≢◌, refl, sym, ap, ◌∙◌, Bool, true, false, none, some, [], ◌∷◌, ◌++◌, Bytes, codes,
  bytes_discrete, length, drop, find-insert, find-delete, Visits, ◌||◌, arith, ◌==◌,
}
use droute.Http.{Header, values, header_add, header_del, canonical}
use droute.Http.Headers.{canonical-canonical}
use droute.ResponseWriter.{ResponseWriter, response_writer, new_response_writer}
use droute.ResponseWriter.Copying.{AllCanonical}
use droute.Middlewares.Documents.{Document, text, image, modification, with_mtime, out_date}
use droute.Middlewares.Documents.Freshness.{SameVersion, out_date_iff}
use droute.Middlewares.Storage.{
  FileSystem, Formats, body_path, header_path, read_to, store, get_mtime,
}
use droute.Middlewares.Storage.Reading.{
  or_empty, Files, DecodesHeaders, is_ascii_header, read_to-store,
}
use droute.Middlewares.Caching.{
  Described, described, add_header, add_expiry, cache_ctrl, measured, not_modified, or_miss,
  from_cache, cache, is_success, exec, miss,
}

cached_in_date : (m : Document) (t : ℕ) → modification m ≤ t → out_date m (with_mtime m t) ≡ false
cached_in_date m t le = (out_date_iff m (with_mtime m t)).1 (same m, later m le)
  where
    same : (d : Document) → SameVersion d (with_mtime d t)
    same (text d) = (refl, refl, refl, refl, refl)
    same (image d) = (refl, refl, refl, refl, refl, refl)

    later : (d : Document) → modification d ≤ t → modification d ≤ modification (with_mtime d t)
    later (text d) h = h
    later (image d) h = h

-- a key of a header that Add or Del has changed
added : (key v : Bytes) (h : Header) → AllCanonical h → AllCanonical (header_add key v h)
unfolding header_add
added key v h c k vs e = elim (bytes_discrete (canonical key) k) [
  | yes same ↦ rw (sym same) (canonical-canonical key)
  | no other ↦ c k vs (
      ground (
        arith,
        find-insert bytes_discrete (canonical key) k (values (canonical key) h ++ v ∷ []) h,
      ))
]

deleted : (key : Bytes) (h : Header) → AllCanonical h → AllCanonical (header_del key h)
unfolding header_del
deleted key h c k vs e = elim (bytes_discrete (canonical key) k) [
  | yes same ↦ absurd (ground (arith, find-delete bytes_discrete (canonical key) k h))
  | no other ↦ c k vs (ground (arith, find-delete bytes_discrete (canonical key) k h))
]

measured-AllCanonical :
    (form : Formats) (resp : ResponseWriter)
    → AllCanonical resp.header
    → AllCanonical (measured form resp)
measured-AllCanonical form resp c = added _ _ _ (deleted _ _ c)

module _ {F : Type 0} (sys : FileSystem F) (form : Formats) (root : Bytes) (visit : Header → Header)
    (expire now : ℕ) where
  ctrl-buffer :
      (m : Document) (w : ResponseWriter)
      → (cache_ctrl response_writer sys form root visit expire now m 0 w).buffer ≡ w.buffer
  unfolding cache_ctrl add_expiry
  ctrl-buffer m w = ground arith

  exec-files :
      (m : Document) (resp w : ResponseWriter) (fs fs1 : F)
      → (resp.code == 0 || is_success resp.code) ≡ true
      → resp.buffer ≢ []
      → store sys form root m resp.buffer (measured form resp) fs ≡ (fs1, none)
      → (exec response_writer sys form root visit expire now m resp w fs).1 ≡ fs1
  unfolding exec
  exec-files m resp w fs fs1 good full kept = rw (exec, is_full resp.buffer full, good, kept) refl
    where
      is_full : (b : Bytes) → b ≢ [] → (length b == 0) ≡ false
      is_full [] n = absurd (n refl)
      is_full (x ∷ b) n = ground arith

module _ {F R : Type 0} (sys : FileSystem F) (form : Formats) (root : Bytes)
    (visit : Header → Header) (expire : ℕ) (req_header : R → Header) (meta : R → Described R) where
  abbrev pub handled :
      ℕ → (R → ResponseWriter → ResponseWriter) → R → ResponseWriter → F → ResponseWriter × F
  handled now origin r w fs =
      cache response_writer sys form root visit expire now req_header meta origin r w fs

  first_files :
      (now : ℕ) (origin : R → ResponseWriter → ResponseWriter) (m : Document) (r r1 : R)
      (w : ResponseWriter) (fs fs1 : F)
      → meta r ≡ described m r1
      → get_mtime sys form root m fs ≡ none
      → let resp = origin r1 new_response_writer in
        (resp.code == 0 || is_success resp.code) ≡ true
        → resp.buffer ≢ []
        → store sys form root m resp.buffer (measured form resp) fs ≡ (fs1, none)
        → (handled now origin r w fs).1 ≡ fs1
  unfolding cache miss
  first_files now origin m r r1 w fs fs1 known absent good full kept =
      rw (cache, known, absent)
        (exec-files sys form root visit expire now m (origin r1 new_response_writer) w fs fs1 good
          full kept)

  taken :
      (now : ℕ) (origin : R → ResponseWriter → ResponseWriter) (m : Document) (r : R) (fs : F)
      (x : ResponseWriter × Bool)
      → x.1 ≡ true
      → or_miss response_writer sys form root visit expire now req_header meta origin m r fs x
        ≡ (x.0, fs)
  taken now origin m r fs (w, true) e = refl
  taken now origin m r fs (w, false) e = absurd (ground arith)

  hit :
      (now t : ℕ) (origin : R → ResponseWriter → ResponseWriter) (m : Document) (r r1 : R)
      (w : ResponseWriter) (fs : F)
      → meta r ≡ described m r1
      → sys.stat_mtime (body_path form root m) fs ≡ some t
      → modification m ≤ t
      → not_modified form req_header m r1 ≡ false
      → let s =
          cache_ctrl response_writer sys form root visit expire now m 0
            (add_header response_writer (codes "X-Cache") (codes "true") w) in
        let x = read_to sys form root response_writer visit m 200 fs s in
        x.1 ≡ true → handled now origin r w fs ≡ (x.0, fs)
  unfolding cache from_cache get_mtime
  hit now t origin m r r1 w fs known there le since ok =
      rw (cache, known, get_mtime, there, from_cache, since, cached_in_date m t le)
        (taken now origin m r1 fs _ ok)

-- For a file system and a JSON decoder as documented, and paths of body and header that differ: let Cache
-- find no document for a request, and let the origin answer it with a status of success or none, a body
-- that is not empty and header keys in canonical form, where the header that is stored, with the
-- Content-Length of the body, has ASCII keys and values, which Store keeps. Then a later request for
-- the same metadata, which the test of its If-Modified-Since does not find unmodified, and with a stored
-- file that is not older than the original, is answered without the origin, whatever that would do:
-- with status 200, with the stored body followed by what the file held beyond its length before the
-- Store, with the stored header values behind those of cacheCtrl, and without a change of the files.
pub cache-cached :
    {F R : Type 0} (sys : FileSystem F) (form : Formats) (root : Bytes) (files : Files sys)
    (decodes : DecodesHeaders form) (visit : Header → Header) (visits : Visits bytes_discrete visit)
    (expire : ℕ) (req_header : R → Header) (meta : R → Described R)
    (origin origin2 : R → ResponseWriter → ResponseWriter) (m : Document) (r1 r2 q1 q2 : R)
    (w1 w2 : ResponseWriter) (fs fs1 : F) (now now2 t : ℕ)
    → meta r1 ≡ described m q1
    → meta r2 ≡ described m q2
    → get_mtime sys form root m fs ≡ none
    → (let resp = origin q1 new_response_writer in
        ((resp.code == 0 || is_success resp.code) ≡ true)
        × (resp.buffer ≢ [])
        × AllCanonical resp.header
        × (is_ascii_header (measured form resp) ≡ true)
        × (store sys form root m resp.buffer (measured form resp) fs ≡ (fs1, none)))
    → body_path form root m ≢ header_path form root m
    → sys.stat_mtime (body_path form root m) fs1 ≡ some t
    → modification m ≤ t
    → not_modified form req_header m q2 ≡ false
    → let resp = origin q1 new_response_writer in
      let first = handled sys form root visit expire req_header meta now origin r1 w1 fs in
      let second = handled sys form root visit expire req_header meta now2 origin2 r2 w2 first.1 in
      (second.1 ≡ first.1)
      × (second.0.code ≡ 200)
      × (second.0.buffer
          ≡ w2.buffer
            ++ (resp.buffer
                ++ drop (length resp.buffer) (or_empty (sys.read_file (body_path form root m) fs))))
      × ((q : Bytes)
          → values q second.0.header
            ≡ values q
                (cache_ctrl response_writer sys form root visit expire now2 m 0
                  (add_header response_writer (codes "X-Cache") (codes "true") w2)).header
              ++ values q (measured form resp))
cache-cached sys form root files decodes visit visits expire req_header meta origin origin2 m r1 r2
      q1 q2 w1 w2 fs fs1 now now2 t known1 known2 absent (good, full, canon, ascii, kept) ne there
      le since =
    let resp = origin q1 new_response_writer in
    let one =
      first_files sys form root visit expire req_header meta now origin m r1 q1 w1 fs fs1 known1
        absent good full kept in
    let s =
      cache_ctrl response_writer sys form root visit expire now2 m 0
        (add_header response_writer (codes "X-Cache") (codes "true") w2) in
    let (ok, (body, code, head)) =
      read_to-store sys form root files decodes visit visits m resp.buffer (measured form resp) 200
        fs fs1 s (measured-AllCanonical form resp canon) ascii ne kept in
    let two =
      hit sys form root visit expire req_header meta now2 t origin2 m r2 q2 w2 fs1 known2 there le
        since ok in
    let bufs =
      ctrl-buffer sys form root visit expire now2 m
        (add_header response_writer (codes "X-Cache") (codes "true") w2) in
    rw (one, two)
      (
        refl,
        code,
        body
            ∙ ap
                (λ (b : Bytes).
                  b
                  ++ (resp.buffer
                      ++ drop (length resp.buffer)
                          (or_empty (sys.read_file (body_path form root m) fs))))
                bufs,
        head,
      )
