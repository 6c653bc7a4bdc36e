-- ===== src/Middlewares/Storage.antt =====
-- middlewares/cache/cache.go: the storage of cached documents. The file system is afero's, a
-- parameter; so are the forms of numbers, times and headers. A method holds the lock, and is one step.
pub mod Reading
pub mod Surviving
pub mod Sample
pub mod Tree
use droute.Prelude.{
  ℕ, ◌+◌, Bool, true, false, not, Option, none, some, List, [], ◌∷◌, ◌++◌, Bytes, codes, length,
  ltb, leb, ◌==◌, if◌then◌else◌,
}
use droute.Http.{Header, HttpWriter, header_add}
use droute.ResponseWriter.{add_entries, send_code}
use droute.Middlewares.Documents.{Document, name, with_mtime, root_dir_hash}

-- afero.Fs. A file that is open for writing is named by its path: `open_create` is OpenFile with
-- O_CREATE and O_WRONLY, and `write` goes from the file's start on. `read_file` is Open and what is read
-- from the file. An error is some text, where a caller needs its text, and none else.
pub record FileSystem (F : Type 0) : Type 0 where
  pub mkdir_all : Bytes → F → F × Option Bytes
  pub open_create : Bytes → F → F × Option Bytes
  pub write : Bytes → Bytes → F → F × Option Bytes
  pub sync : Bytes → F → Option Bytes
  pub read_file : Bytes → F → Option Bytes
  pub stat_mtime : Bytes → F → Option ℕ
  pub remove : Bytes → F → F × Bool
  pub remove_all : Bytes → F → F
  pub is_empty : Bytes → F → Option Bool

-- filepath.Join("/", …), filepath.Dir, the MD5 sum in hexadecimal, numbers in base 10, the JSON form of
-- a header, which the decoder reads from the start of a file, and the times of net/http
pub record Formats : Type 0 where
  pub join : Bytes → Bytes → Bytes → Bytes
  pub dir : Bytes → Bytes
  pub md5_hex : Bytes → Bytes
  pub digits : ℕ → Bytes
  pub encode_header : Header → Bytes
  pub decode_header : Bytes → Option Header
  pub seconds : ℕ → Bytes
  pub http_time : ℕ → Bytes
  pub parse_time : Bytes → Option ℕ
  pub err_text : Bytes → Bytes

-- io.Copy of what is left in a buffer or a file
unfoldable pub io_copy : {S : Type 0} → HttpWriter S → Bytes → S → S × Option Bytes
io_copy W [] s = (s, none)
io_copy W (b ∷ bs) s =
    let (s', n, err) = W.write (b ∷ bs) s in
    elim err [
      | some e ↦ (s', some e)
      | none ↦ if n == length (b ∷ bs) then (s', none) else (s', some (codes "short write"))
    ]

abbrev pub succeeded : {S : Type 0} → S × Option Bytes → S × Bool
succeeded (s, none) = (s, true)
succeeded (s, some e) = (s, false)

-- One more step of Store, unless a step before it has failed
abbrev pub next_step : {F : Type 0} → F × Option Bytes → (F → F × Option Bytes) → F × Option Bytes
next_step (fs, some e) f = (fs, some e)
next_step (fs, none) f = f fs

module _ (form : Formats) (root : Bytes) where
  open form use {join, md5_hex, digits}

  unfoldable pub body_path : Document → Bytes
  body_path d = join root (root_dir_hash md5_hex digits d) (name d)

  unfoldable pub header_path : Document → Bytes
  header_path d = join root (root_dir_hash md5_hex digits d) (name d ++ codes ".header")

-- OpenFile, the writing and Sync
unfoldable pub write_file : {F : Type 0} → FileSystem F → Bytes → Bytes → F → F × Option Bytes
write_file sys path content fs =
    next_step (sys.open_create path fs)
      (λ fs1. next_step (sys.write path content fs1) (λ fs2. (fs2, sys.sync path fs2)))

module _ {F : Type 0} (sys : FileSystem F) (form : Formats) (root : Bytes) where
  open sys use {mkdir_all, read_file, stat_mtime}
  open form use {dir, encode_header, decode_header}

  -- Store of a reader's whole content
  unfoldable pub store : Document → Bytes → Header → F → F × Option Bytes
  store d content h fs = next_step (mkdir_all (dir (body_path form root d)) fs) (λ fs1.
      next_step (write_file sys (body_path form root d) content fs1)
        (λ fs2. write_file sys (header_path form root d) (encode_header h) fs2))

  module _ {S : Type 0} (W : HttpWriter S) (visit : Header → Header) where
    -- ReadTo: what was written, and whether it succeeded
    unfoldable pub read_to : Document → ℕ → F → S → S × Bool
    read_to d code fs s = elim (read_file (header_path form root d) fs) [
      | none ↦ (s, false)
      | some text ↦ elim (decode_header text) [
        | none ↦ (s, false)
        | some h ↦
            let s1 = send_code W code (W.with_header (add_entries (visit h) (W.header s)) s) in
            elim (read_file (body_path form root d) fs) [
              | none ↦ (s1, false)
              | some content ↦ succeeded (io_copy W content s1)
            ]
      ]
    ]

  -- GetMTime
  unfoldable pub get_mtime : Document → F → Option Document
  get_mtime d fs = elim (stat_mtime (body_path form root d) fs) [
    | none ↦ none
    | some t ↦ some (with_mtime d t)
  ]

-- What afero.Walk hands to its function: the error or the file, with the time of the last access where
-- there is one
pub data Visited : Type 0 where
  failed : Visited
  folder : Bytes → Visited
  file : Bytes → Option ℕ → Visited

module _ {F : Type 0} (sys : FileSystem F) (form : Formats) where
  open sys use {remove, remove_all, is_empty}

  -- the removal of an old file, and of its folder if it is empty then
  unfoldable pub remove_file : Bytes → F → F
  remove_file path fs =
      let (fs1, removed) = remove path fs in
      if removed
      then (elim (is_empty (form.dir path) fs1) [
        | none ↦ fs1
        | some false ↦ fs1
        | some true ↦ remove_all (form.dir path) fs1
      ])
      else fs1

module _ {F : Type 0} (sys : FileSystem F) (form : Formats) (ttl : ℕ) where
  -- the function that the clean-up gives to Walk
  unfoldable pub clean_file : ℕ → Visited → F → F
  clean_file now failed fs = fs
  clean_file now (folder path) fs = fs
  clean_file now (file path none) fs = fs
  clean_file now (file path (some atime)) fs =
      let cleaned = remove_file sys form path fs in if leb now (atime + ttl) then fs else cleaned

  -- one round of the clean-up of NewStorage; each visit comes with the time that Since reads for it
  unfoldable pub clean_files : List (ℕ × Visited) → F → F
  clean_files [] fs = fs
  clean_files ((now, v) ∷ vs) fs = clean_files vs (clean_file now v fs)
