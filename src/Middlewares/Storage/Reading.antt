-- ===== src/Middlewares/Storage/Reading.antt =====
-- What ReadTo gives of a document that Store has kept.
use mathlib.Core.List.{append-nil}
use droute.Prelude.{
  ℕ, ◌≡◌, ◌≢◌, refl, sym, ap, ◌∙◌, Bool, true, ◌&&◌, ltb, List, Option, none, some, [], ◌∷◌, ◌++◌,
  Bytes, bytes_discrete, length, drop, find, Visits, ite, arith, ◌==◌, if◌then◌else◌,
}
use droute.Http.{Header, values, list_or_nil}
use droute.ResponseWriter.{ResponseWriter, response_writer, add_entries, send_code}
use droute.ResponseWriter.Copying.{AllCanonical, values-add_visited}
use droute.Middlewares.Documents.{Document}
use droute.Middlewares.Storage.{
  FileSystem, Formats, io_copy, succeeded, next_step, body_path, header_path, write_file, store,
  read_to,
}

abbrev pub or_empty : Option Bytes → Bytes
or_empty none = []
or_empty (some b) = b

-- What afero documents: a file that is made is empty, one that is opened with O_CREATE and without O_TRUNC
-- keeps its bytes, a write replaces as many bytes as it has, and other files stay as they are.
pub record Files {F : Type 0} (sys : FileSystem F) : Type 0 where
  pub read-mkdir_all :
      (p q : Bytes) (fs fs1 : F)
      → sys.mkdir_all q fs ≡ (fs1, none)
      → sys.read_file p fs1 ≡ sys.read_file p fs
  pub read-open_create :
      (p q : Bytes) (fs fs1 : F)
      → sys.open_create q fs ≡ (fs1, none)
      → sys.read_file p fs1
        ≡ ite (bytes_discrete q p) (some (or_empty (sys.read_file p fs))) (sys.read_file p fs)
  pub read-write :
      (p q content old : Bytes) (fs fs1 : F)
      → sys.write q content fs ≡ (fs1, none)
      → sys.read_file q fs ≡ some old
      → sys.read_file p fs1
        ≡ ite
            (bytes_discrete q p)
            (some (content ++ drop (length content) old))
            (sys.read_file p fs)

-- Whether every byte of the text is an ASCII character
unfoldable pub is_ascii : Bytes → Bool
is_ascii [] = true
is_ascii (b ∷ s) = ltb b 128 && is_ascii s

unfoldable pub all_ascii : List Bytes → Bool
all_ascii [] = true
all_ascii (v ∷ vs) = is_ascii v && all_ascii vs

-- Whether the keys and the values of a header are ASCII
unfoldable pub is_ascii_header : Header → Bool
is_ascii_header [] = true
is_ascii_header ((k, vs) ∷ h) = is_ascii k && all_ascii vs && is_ascii_header h

-- What encoding/json documents: a header that was encoded is decoded to the same map, whatever bytes
-- follow, if its strings are ASCII. It writes strings as UTF-8, and replaces what is not.
abbrev pub DecodesHeaders : Formats → Type 0
DecodesHeaders form =
    (h : Header) (rest : Bytes)
    → is_ascii_header h ≡ true
    → (h1 : Header) × (form.decode_header (form.encode_header h ++ rest) ≡ some h1)
      × ((k : Bytes) → find bytes_discrete k h1 ≡ find bytes_discrete k h)

next_step-ok :
    {F : Type 0} {fs2 : F} (r : F × Option Bytes) (f : F → F × Option Bytes)
    → next_step r f ≡ (fs2, none)
    → (fs1 : F) × (r ≡ (fs1, none)) × (f fs1 ≡ (fs2, none))
next_step-ok (fs1, none) f e = (fs1, refl, e)
next_step-ok (fs1, some x) f e = absurd (ground arith)

module _ {F : Type 0} (sys : FileSystem F) (files : Files sys) where
  open files use {read-mkdir_all, read-open_create, read-write}

  write_file-ok :
      (p content : Bytes) (fs fs1 : F)
      → write_file sys p content fs ≡ (fs1, none)
      → (q : Bytes)
      → sys.read_file q fs1
        ≡ ite
            (bytes_discrete p q)
            (some (content ++ drop (length content) (or_empty (sys.read_file p fs))))
            (sys.read_file q fs)
  unfolding write_file
  write_file-ok p content fs fs1 e q =
      let (a, h1, e1) = next_step-ok (sys.open_create p fs) _ e in
      let (b, h2, e2) = next_step-ok (sys.write p content a) _ e1 in
      let same : b ≡ fs1 = ap (λ x. x.0) e2 in
      let opened : sys.read_file p a ≡ some (or_empty (sys.read_file p fs)) =
        ground (arith, read-open_create p p fs a h1) in
      ground (
        arith,
        same,
        read-write q p content (or_empty (sys.read_file p fs)) a b h2 opened,
        read-open_create q p fs a h1,
      )

pub io_copy-memory :
    (bs : Bytes) (w : ResponseWriter)
    → io_copy response_writer bs w ≡ (record w { buffer = w.buffer ++ bs }, none)
unfolding io_copy
io_copy-memory [] w = rw (append-nil w.buffer) refl
io_copy-memory (b ∷ bs) w = ground arith

-- What a response holds after a document was added to it
abbrev pub Holds : Bytes → ℕ → Header → ResponseWriter → ResponseWriter → Type 0
Holds content code h old new =
    (new.buffer ≡ old.buffer ++ content)
    × (new.code ≡ (if code == 0 then old.code else code))
    × ((q : Bytes) → values q new.header ≡ values q old.header ++ values q h)

module _ {F : Type 0} (sys : FileSystem F) (form : Formats) (root : Bytes)
    (decodes : DecodesHeaders form) (visit : Header → Header)
    (visits : Visits bytes_discrete visit) where
  code-send_code :
      (code : ℕ) (w : ResponseWriter)
      → send_code response_writer code w ≡ record w { code = if code == 0 then w.code else code }
  unfolding send_code
  code-send_code code w = ground arith

  -- A document whose files are there is read.
  pub read_to-Holds :
      (d : Document) (content rest : Bytes) (h : Header) (code : ℕ) (fs : F) (w : ResponseWriter)
      → AllCanonical h
      → is_ascii_header h ≡ true
      → sys.read_file (body_path form root d) fs ≡ some content
      → sys.read_file (header_path form root d) fs ≡ some (form.encode_header h ++ rest)
      → let r = read_to sys form root response_writer visit d code fs w in
        (r.1 ≡ true) × Holds content code h w r.0
  unfolding read_to values
  read_to-Holds d content rest h code fs w canon ascii body head =
      let (h1, parsed, same) = decodes h rest ascii in
      let c1 : AllCanonical h1 = λ k vs e. canon k vs (sym (same k) ∙ e) in
      let s1 =
        send_code response_writer code (record w { header = add_entries (visit h1) w.header }) in
      let result : read_to sys form root response_writer visit d code fs w
          ≡ (record s1 { buffer = s1.buffer ++ content }, true) =
        rw (read_to, head, parsed, body) (ap succeeded (io_copy-memory content s1)) in
      let code1 = code-send_code code (record w { header = add_entries (visit h1) w.header }) in
      rw (result, code1)
        (
          refl,
          (
            refl,
            refl,
            λ q.
                values-add_visited visit visits q h1 w.header c1
                ∙ ap (λ x. values q w.header ++ list_or_nil x) (same q),
          ),
        )

module _ {F : Type 0} (sys : FileSystem F) (form : Formats) (root : Bytes) (files : Files sys) where
  pub store-files :
      (d : Document) (content : Bytes) (h : Header) (fs fs1 : F)
      → body_path form root d ≢ header_path form root d
      → store sys form root d content h fs ≡ (fs1, none)
      → (sys.read_file (body_path form root d) fs1
          ≡ some (
              content
              ++ drop (length content) (or_empty (sys.read_file (body_path form root d) fs))))
        × ((rest : Bytes) × (sys.read_file (header_path form root d) fs1
              ≡ some (form.encode_header h ++ rest)))
  unfolding store
  store-files d content h fs fs1 ne e =
      let (a, h1, e1) = next_step-ok (sys.mkdir_all (form.dir (body_path form root d)) fs) _ e in
      let (b, h2, e2) = next_step-ok (write_file sys (body_path form root d) content a) _ e1 in
      let body =
        write_file-ok sys files (body_path form root d) content a b h2 (body_path form root d) in
      let head =
        write_file-ok sys files (header_path form root d) (form.encode_header h) b fs1 e2 in
      (
        ground (
          arith,
          head (body_path form root d),
          body,
          files.read-mkdir_all (body_path form root d) (form.dir (body_path form root d)) fs a h1,
        ),
        (
          drop (length (form.encode_header h))
              (or_empty (sys.read_file (header_path form root d) b)),
          ground (arith, head (header_path form root d)),
        ),
      )

-- For a file system and a JSON decoder as documented, paths of body and header that differ, and a header
-- of ASCII keys and values whose keys are all in canonical form: after a Store that succeeds, ReadTo into a response in memory
-- succeeds, adds the header's values, sets the status if one is given, and writes the stored bytes
-- followed by what the file held beyond their length before.
pub read_to-store :
    {F : Type 0} (sys : FileSystem F) (form : Formats) (root : Bytes) (files : Files sys)
    (decodes : DecodesHeaders form) (visit : Header → Header) (visits : Visits bytes_discrete visit)
    (d : Document) (content : Bytes) (h : Header) (code : ℕ) (fs fs1 : F) (w : ResponseWriter)
    → AllCanonical h
    → is_ascii_header h ≡ true
    → body_path form root d ≢ header_path form root d
    → store sys form root d content h fs ≡ (fs1, none)
    → let r = read_to sys form root response_writer visit d code fs1 w in
      (r.1 ≡ true)
      × Holds
          (content ++ drop (length content) (or_empty (sys.read_file (body_path form root d) fs)))
          code
          h
          w
          r.0
read_to-store sys form root files decodes visit visits d content h code fs fs1 w canon ascii ne e =
    let (body, (rest, head)) = store-files sys form root files d content h fs fs1 ne e in
    read_to-Holds sys form root decodes visit visits d _ rest h code fs1 w canon ascii body head
