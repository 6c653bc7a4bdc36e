-- ===== src/Middlewares/FileServer.antt =====
-- middlewares/fileserver/stripprefix.go: StripPrefix. The language of a request is httprouter's, a parameter.
pub mod Stripping
use droute.Prelude.{
  ℕ, Bool, true, false, Option, none, some, [], ◌∷◌, ◌++◌, Bytes, codes, length, trim_prefix, ltb,
  if◌then◌else◌,
}

-- `if p := strings.TrimPrefix(path, prefix); len(p) < len(path)`
unfoldable pub stripped : Bytes → Bytes → Option Bytes
stripped prefix path =
    let p = trim_prefix path prefix in if ltb (length p) (length path) then some p else none

abbrev pub or_path : Bytes → Option Bytes → Bytes
or_path path none = path
or_path path (some p) = p

abbrev pub without_language : Bytes → Bytes → Bytes
without_language [] path = path
without_language (c ∷ lang) path = or_path path (stripped (b'/' ∷ c ∷ lang) path)

-- The path that StripPrefix hands on; none is NotFound
unfoldable pub strip_prefix : Bytes → Bytes → Bytes → Option Bytes
strip_prefix [] lang path = some path
strip_prefix (c ∷ prefix) lang path = stripped (c ∷ prefix) (without_language lang path)
