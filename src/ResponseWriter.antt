-- ===== src/ResponseWriter.antt =====
-- responsewriter/responsewriter.go: a response kept in memory until it is copied out.
pub mod Copying
mod Tests
use droute.Prelude.{
  ℕ, Bool, not, Option, none, some, List, [], ◌∷◌, ◌++◌, Bytes, codes, length, take, drop, ◌==◌,
  if◌then◌else◌,
}
use droute.Http.{Header, HttpWriter, header_add}

pub record ResponseWriter : Type 0 where
  pub header : Header
  pub code : ℕ
  pub buffer : Bytes

abbrev pub new_response_writer : ResponseWriter
new_response_writer = record { header = []; code = 0; buffer = [] }

abbrev pub write : Bytes → ResponseWriter → ResponseWriter × ℕ × Option Bytes
write buf rw = (record rw { buffer = rw.buffer ++ buf }, length buf, none)

-- Read with room for n bytes: what is read leaves the buffer.
unfoldable pub read : ℕ → ResponseWriter → ResponseWriter × Bytes
read n rw = (record rw { buffer = drop n rw.buffer }, take n rw.buffer)

unfoldable pub reset : ResponseWriter → ResponseWriter
reset rw = record rw { header = []; code = 0; buffer = [] }

abbrev pub response_writer : HttpWriter ResponseWriter
response_writer = record {
  header = λ rw. rw.header;
  with_header = λ h rw. record rw { header = h };
  write_header = λ code rw. record rw { code = code };
  write = write;
}

-- the loops that add every value of every key
unfoldable pub add_values : Bytes → List Bytes → Header → Header
add_values key [] h = h
add_values key (v ∷ vs) h = add_values key vs (header_add key v h)

unfoldable pub add_entries : Header → Header → Header
add_entries [] h = h
add_entries ((key, vs) ∷ entries) h = add_entries entries (add_values key vs h)

abbrev pub short_write : Bytes
short_write = codes "didn't wrote all data"

module _ {S : Type 0} (W : HttpWriter S) where
  unfoldable pub send_code : ℕ → S → S
  send_code code s = if code == 0 then s else W.write_header code s

  unfoldable pub send_body : Bytes → S → S × Option Bytes
  send_body buf s =
      let (s', n, err) = W.write buf s in
      elim err [
        | some e ↦ (s', some e)
        | none ↦ if n == length buf then (s', none) else (s', some short_write)
      ]

module _ {S : Type 0} (W : HttpWriter S) (visit : Header → Header) where
  -- Copy: the destination, and the error
  unfoldable pub copy : ResponseWriter → S → S × Option Bytes
  copy rw s =
      let s1 = W.with_header (add_entries (visit rw.header) (W.header s)) s in
      send_body W rw.buffer (send_code W rw.code s1)

  -- Handler: the handler fills a new ResponseWriter, which is copied out; an error is only logged.
  unfoldable pub handler : {R : Type 0} → (R → ResponseWriter → ResponseWriter) → R → S → S
  handler handle req s = (copy (handle req new_response_writer) s).0
