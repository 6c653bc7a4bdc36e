-- ===== src/Middlewares/Documents.antt =====
-- middlewares/cache/docs.go: the metadata of a cached document. A time is a number; the MD5 sum in
-- hexadecimal is the parameter `md5_hex`, and strconv.FormatInt in base 10 is `digits`.
pub mod Freshness
use droute.Prelude.{ℕ, ◌+◌, Bool, true, false, not, ◌++◌, Bytes, ltb, ◌==◌, if◌then◌else◌}
use droute.Router.Match.{eqb}

pub record Text : Type 0 where
  pub file_name : Bytes
  pub mtime : ℕ
  pub lang : Bytes
  pub encoding : Bytes
  pub mime : Bytes
  pub user_agent : Bytes
  pub extension : Bytes
  pub hash : Bytes

-- Width and Height are sizes in pixels.
pub record Image : Type 0 where
  pub file_name : Bytes
  pub mtime : ℕ
  pub lang : Bytes
  pub mime : Bytes
  pub user_agent : Bytes
  pub hash : Bytes
  pub width : ℕ
  pub height : ℕ
  pub extension : Bytes

-- The dynamic types that a Document can have.
pub data Document : Type 0 where
  text : Text → Document
  image : Image → Document

-- Text.New and Image.New
abbrev pub with_mtime : Document → ℕ → Document
with_mtime (text t) m = text (record t { mtime = m })
with_mtime (image i) m = image (record i { mtime = m })

-- Document.Modification and Document.Name
abbrev pub modification : Document → ℕ
modification (text t) = t.mtime
modification (image i) = i.mtime

abbrev pub name : Document → Bytes
name (text t) = t.file_name
name (image i) = i.file_name

-- the tests of Text.OutDate, in their order
unfoldable pub text_out_date : Text → Text → Bool
text_out_date t tc =
    if ltb tc.mtime t.mtime
    then true
    else if not (eqb t.lang tc.lang)
    then true
    else if not (eqb t.encoding tc.encoding)
    then true
    else if not (eqb t.mime tc.mime)
    then true
    else if not (eqb t.user_agent tc.user_agent)
    then true
    else if not (eqb t.hash tc.hash)
    then true
    else false

unfoldable pub image_out_date : Image → Image → Bool
image_out_date i ic =
    if ltb ic.mtime i.mtime
    then true
    else if not (eqb i.lang ic.lang)
    then true
    else if not (eqb i.mime ic.mime)
    then true
    else if not (eqb i.hash ic.hash)
    then true
    else if not (i.width == ic.width)
    then true
    else if not (i.height == ic.height)
    then true
    else if not (eqb i.user_agent ic.user_agent)
    then true
    else false

-- OutDate: a document of the other type is out of date.
unfoldable pub out_date : Document → Document → Bool
out_date (text t) (text tc) = text_out_date t tc
out_date (text t) (image ic) = true
out_date (image i) (image ic) = image_out_date i ic
out_date (image i) (text tc) = true

-- RootDirHash
unfoldable pub root_dir_hash : (Bytes → Bytes) → (ℕ → Bytes) → Document → Bytes
root_dir_hash md5_hex digits (text t) =
    md5_hex (t.encoding ++ t.lang ++ t.mime ++ t.user_agent ++ t.hash)
root_dir_hash md5_hex digits (image i) =
    md5_hex (i.lang ++ i.mime ++ digits i.width ++ digits i.height ++ i.user_agent ++ i.hash)
