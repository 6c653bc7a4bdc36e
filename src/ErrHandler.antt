-- ===== src/ErrHandler.antt =====
-- errhandler/err.go. The body is the JSON text of the status, the message and its human form; it is
-- the parameter `err_body`. A failed encoding is only logged.
use droute.Prelude.{ℕ, Option, none, some, Bytes, codes}
use droute.Http.{HttpWriter, header_set}

abbrev pub content_type : Bytes
content_type = codes "Content-Type"

abbrev pub json_utf8 : Bytes
json_utf8 = codes "application/json; charset=UTF-8"

module _ {S : Type 0} (W : HttpWriter S) (err_body : ℕ → Bytes → Bytes) where
  open W use {header, with_header, write_header, write}

  unfoldable pub err_handler : ℕ → Option Bytes → S → S
  err_handler code none s = s
  err_handler code (some err) s =
      let named = with_header (header_set content_type json_utf8 (header s)) s in
      (write (err_body code err) (write_header code named)).0
