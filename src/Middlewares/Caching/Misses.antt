-- ===== src/Middlewares/Caching/Misses.antt =====
-- What Cache makes of the answer of the origin.
use droute.Prelude.{
  ℕ, ◌≡◌, ◌≢◌, ◌⊎◌, refl, ap, ◌∙◌, Bool, true, false, ◌||◌, Option, none, some, [], ◌∷◌, ◌++◌,
  Bytes, codes, length, arith, ◌==◌, if◌then◌else◌, inl, inr, Bool-cases,
}
use droute.Http.{Header}
use droute.ErrHandler.{err_handler}
use droute.ResponseWriter.{ResponseWriter, response_writer, new_response_writer, add_entries}
use droute.Middlewares.Documents.{Document}
use droute.Middlewares.Storage.{FileSystem, Formats, store}
use droute.Middlewares.Storage.Reading.{io_copy-memory}
use droute.Middlewares.Caching.{
  Described, add_header, add_expiry, cache_ctrl, measured, answer, answer_stored, is_success, exec,
  miss, zero_length,
}

module _ {F : Type 0} (sys : FileSystem F) (form : Formats) (root : Bytes) (visit : Header → Header)
    (expire now : ℕ) where
  -- The response with the body of the origin's behind its own, and the origin's status, or 200
  abbrev pub Sent : ResponseWriter → ResponseWriter → ResponseWriter → Type 0
  Sent resp old new =
      (new.buffer ≡ old.buffer ++ resp.buffer)
      × (new.code ≡ (if resp.code == 0 then 200 else resp.code))

  ctrl_result :
      (m : Document) (code : ℕ) (w : ResponseWriter)
      → (code == 0) ≡ false
      → ((cache_ctrl response_writer sys form root visit expire now m code w).buffer ≡ w.buffer)
        × ((cache_ctrl response_writer sys form root visit expire now m code w).code ≡ code)
  unfolding cache_ctrl add_expiry
  ctrl_result m code w e = (ground arith, ground arith)

  answer-Sent :
      (m : Document) (resp w : ResponseWriter)
      → let r = answer response_writer sys form root visit expire now m resp w in
        Sent resp w r.0 × (r.1 ≡ none)
  unfolding answer
  answer-Sent m resp w =
      let s1 = record w { header = add_entries (visit (measured form resp)) w.header } in
      let s2 = add_header response_writer (codes "X-Cache") (codes "false") s1 in
      let code = if resp.code == 0 then 200 else resp.code in
      let s3 = cache_ctrl response_writer sys form root visit expire now m code s2 in
      let some_code : (code == 0) ≡ false = ground arith in
      let (bufs, sent) = ctrl_result m code s2 some_code in
      rw (answer, io_copy-memory resp.buffer s3)
        ((ap (λ (b : Bytes). b ++ resp.buffer) bufs, sent), refl)

module _ {F R : Type 0} (sys : FileSystem F) (form : Formats) (root : Bytes)
    (visit : Header → Header) (expire now : ℕ) (req_header : R → Header) (meta : R → Described R)
    (origin : R → ResponseWriter → ResponseWriter) where
  abbrev pub failure : Bytes → ResponseWriter → ResponseWriter
  failure e w = err_handler response_writer (λ code. form.err_text) 500 (some e) w

  -- what the storage does with the answer
  abbrev pub kept_as : Document → ResponseWriter → F → F × Option Bytes
  kept_as m resp fs = store sys form root m resp.buffer (measured form resp) fs

  abbrev pub worth : ResponseWriter → Bool
  worth resp = resp.code == 0 || is_success resp.code

  abbrev pub Result : Document → ResponseWriter → ResponseWriter → F → ResponseWriter × F → Type 0
  Result m resp w fs out =
      ((resp.buffer ≡ []) × (out ≡ (failure zero_length w, fs)))
      ⊎ (((resp.buffer ≢ [])
            × (worth resp ≡ false)
            × (out.1 ≡ fs)
            × Sent sys form root visit expire now resp w out.0)
          ⊎ (((resp.buffer ≢ [])
                × (worth resp ≡ true)
                × ((fs1 : F) × (kept_as m resp fs ≡ (fs1, none)) × (out.1 ≡ fs1))
                × Sent sys form root visit expire now resp w out.0)
              ⊎ ((resp.buffer ≢ [])
                  × (worth resp ≡ true)
                  × ((fs1 : F) × (e : Bytes) × (kept_as m resp fs ≡ (fs1, some e))
                      × (out ≡ (failure e w, fs1))))))

  -- A miss of Cache ends in one of four ways. If the origin's body is empty, the answer is ErrHandler's
  -- with status 500 and nothing is stored. If the body is not empty and the status is neither 0 nor
  -- 2xx, the response gets the body and the status, and nothing is stored. If the status is 0 or 2xx and
  -- Store succeeds, the response gets the body and the status, 200 for 0, and the files are those of
  -- Store. If Store fails, the answer is ErrHandler's with status 500 and the error of Store.
  pub miss_cases :
      (m : Document) (r : R) (w : ResponseWriter) (fs : F)
      → Result m
          (origin r new_response_writer)
          w
          fs
          (miss response_writer sys form root visit expire now req_header meta origin m r w fs)
  unfolding miss exec err_handler
  miss_cases m r w fs = by_body (origin r new_response_writer).buffer refl
    where
      resp : ResponseWriter
      resp = origin r new_response_writer

      out : ResponseWriter × F
      out = miss response_writer sys form root visit expire now req_header meta origin m r w fs

      sent :
          Sent sys form root visit expire now resp w
            (answer response_writer sys form root visit expire now m resp w).0
      sent = (answer-Sent sys form root visit expire now m resp w).0

      fine : (answer response_writer sys form root visit expire now m resp w).1 ≡ none
      fine = (answer-Sent sys form root visit expire now m resp w).1

      sent_out :
          (fs1 : F)
          → exec response_writer sys form root visit expire now m resp w fs
            ≡ answer_stored response_writer sys form root visit expire now m resp (fs1, none) w
          → out ≡ ((answer response_writer sys form root visit expire now m resp w).0, fs1)
      sent_out fs1 e = rw (miss, e, fine, err_handler) refl

      is_sent :
          (fs1 : F)
          → out ≡ ((answer response_writer sys form root visit expire now m resp w).0, fs1)
          → Sent sys form root visit expire now resp w out.0
      is_sent fs1 o =
          let e = ap (λ x. x.0) o in (ap (λ x. x.buffer) e ∙ sent.0, ap (λ x. x.code) e ∙ sent.1)

      by_store :
          (k : F × Option Bytes)
          → kept_as m resp fs ≡ k
          → resp.buffer ≢ []
          → (length resp.buffer == 0) ≡ false
          → worth resp ≡ true
          → Result m resp w fs out
      by_store (fs1, none) e ne full good =
          let o = sent_out fs1 (rw (exec, full, good, e) refl) in
          inr (inr (inl (ne, good, (fs1, e, ap (λ x. x.1) o), is_sent fs1 o)))
      by_store (fs1, some x) e ne full good =
          inr (inr (inr (ne, good, (fs1, x, e, rw (miss, exec, full, good, e) refl))))

      by_body : (b : Bytes) → resp.buffer ≡ b → Result m resp w fs out
      by_body [] e = inl (e, rw (miss, exec, e) refl)
      by_body (x ∷ b) e =
          let full : (length resp.buffer == 0) ≡ false = ground (arith, e) in
          elim (Bool-cases (worth resp)) [
            | inl good ↦ by_store (kept_as m resp fs) refl (ground arith) full good
            | inr bad ↦
                let o = sent_out fs (rw (exec, full, bad) refl) in
                inr (inl (ground arith, bad, ap (λ x. x.1) o, is_sent fs o))
          ]
