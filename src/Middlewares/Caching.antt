-- ===== src/Middlewares/Caching.antt =====
-- middlewares/cache/handler.go: the handler Cache in front of a handler of the origin. A time is a number
-- of nanoseconds; `now` is what time.Now() gives.
pub mod Hits
pub mod Misses
mod Tests
use droute.Prelude.{
  ℕ, ◌+◌, ◌*◌, ◌^◌, Bool, true, false, ◌&&◌, ◌||◌, not, Option, none, some, List, [], ◌∷◌, ◌++◌,
  Bytes, codes, length, ltb, leb, ◌==◌, if◌then◌else◌,
}
use droute.Http.{Header, HttpWriter, header_add, header_del, header_get}
use droute.ErrHandler.{err_handler}
use droute.ResponseWriter.{ResponseWriter, new_response_writer, add_entries}
use droute.Middlewares.Documents.{Document, modification, out_date, root_dir_hash}
use droute.Middlewares.Storage.{FileSystem, Formats, io_copy, store, read_to, get_mtime}

-- what Meta gives: an error, or the document's metadata and the request
pub data Described (R : Type 0) : Type 0 where
  bad_request : Bytes → Described R
  described : Document → R → Described R

abbrev pub is_success : ℕ → Bool
is_success code = leb 200 code && ltb code 300

abbrev pub zero_length : Bytes
zero_length = codes "response body lenght is zero"

-- the test of the header If-Modified-Since
unfoldable pub not_modified : {R : Type 0} → Formats → (R → Header) → Document → R → Bool
not_modified form req_header m r =
    elim (form.parse_time (header_get (codes "If-Modified-Since") (req_header r))) [
      | none ↦ false
      | some t ↦ ltb (modification m) (t + 10 ^ 9)
    ]

abbrev pub add_header : {S : Type 0} → HttpWriter S → Bytes → Bytes → S → S
add_header W key v s = W.with_header (header_add key v (W.header s)) s

-- the header that exec stores and sends
abbrev pub measured : Formats → ResponseWriter → Header
measured form resp =
    header_add (codes "Content-Length") (form.digits (length resp.buffer))
      (header_del (codes "Content-Length") resp.header)

module _ {S F : Type 0} (W : HttpWriter S) (sys : FileSystem F) (form : Formats) (root : Bytes)
    (visit : Header → Header) (expire now : ℕ) where
  open W use {header, with_header, write_header}

  -- the Cache-Control and Expires of cacheCtrl
  unfoldable pub add_expiry : S → S
  add_expiry s =
      let s1 =
        add_header W (codes "Cache-Control")
          (codes "max-age=" ++ form.seconds expire ++ codes ", public") s in
      if expire == 0 then s else add_header W (codes "Expires") (form.http_time (now + expire)) s1

  -- cacheCtrl
  unfoldable pub cache_ctrl : Document → ℕ → S → S
  cache_ctrl m code s =
      let s1 =
        add_header W (codes "Last-Modified") (form.http_time (modification m)) (add_expiry s) in
      let s2 = add_header W (codes "Etag") (root_dir_hash form.md5_hex form.digits m) s1 in
      if not (code == 0) && not (is_success code)
      then write_header code s
      else if code == 0
      then s2
      else write_header code s2

  -- what exec does once the response is stored, or need not be
  unfoldable pub answer : Document → ResponseWriter → S → S × Option Bytes
  answer m resp s =
      let s1 = with_header (add_entries (visit (measured form resp)) (header s)) s in
      let code = if resp.code == 0 then 200 else resp.code in
      io_copy W resp.buffer (cache_ctrl m code (add_header W (codes "X-Cache") (codes "false") s1))

  abbrev pub answer_stored : Document → ResponseWriter → F × Option Bytes → S → S × F × Option Bytes
  answer_stored m resp (fs, some e) s = (s, fs, some e)
  answer_stored m resp (fs, none) s = let (s', e) = answer m resp s in (s', fs, e)

  -- exec, given the response of the handler
  unfoldable pub exec : Document → ResponseWriter → S → F → S × F × Option Bytes
  exec m resp s fs =
      let kept =
        if resp.code == 0 || is_success resp.code
        then store sys form root m resp.buffer (measured form resp) fs
        else (fs, none) in
      if length resp.buffer == 0 then (s, fs, some zero_length) else answer_stored m resp kept s

  module _ {R : Type 0} (req_header : R → Header) (meta : R → Described R)
      (origin : R → ResponseWriter → ResponseWriter) where
    -- a miss: exec, and errHandler of its error
    unfoldable pub miss : Document → R → S → F → S × F
    miss m r s fs =
        let (s', fs', e) = exec m (origin r new_response_writer) s fs in
        (err_handler W (λ code. form.err_text) 500 e s', fs')

    abbrev pub or_miss : Document → R → F → S × Bool → S × F
    or_miss m r fs (s, true) = (s, fs)
    or_miss m r fs (s, false) = miss m r s fs

    -- what Cache does with a document that is in the cache
    unfoldable pub from_cache : Document → R → Document → S → F → S × F
    from_cache m r cached s fs =
        let s1 = cache_ctrl m 0 (add_header W (codes "X-Cache") (codes "true") s) in
        if not_modified form req_header m r
        then (cache_ctrl m 304 (add_header W (codes "X-Cache") (codes "since") s), fs)
        else if out_date m cached
        then miss m r s fs
        else or_miss m r fs (read_to sys form root W visit m 200 fs s1)

    -- Cache
    unfoldable pub cache : R → S → F → S × F
    cache r s fs = elim (meta r) [
      | bad_request e ↦ (err_handler W (λ code. form.err_text) 500 (some e) s, fs)
      | described m r1 ↦ elim (get_mtime sys form root m fs) [
        | none ↦ miss m r1 s fs
        | some cached ↦ from_cache m r1 cached s fs
      ]
    ]
