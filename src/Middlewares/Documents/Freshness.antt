-- ===== src/Middlewares/Documents/Freshness.antt =====
-- What a cached document that is not out of date has in common with the original.
use droute.Prelude.{ℕ, ◌≤◌, ◌≡◌, ◌↔◌, refl, false, Bytes, arith}
use droute.Router.Match.{eqb}
use droute.Middlewares.Documents.{
  Document, text, image, text_out_date, image_out_date, out_date, root_dir_hash, modification,
}

-- The metadata that select a version of a document agree.
abbrev pub SameVersion : Document → Document → Type 0
SameVersion (text t) (text c) =
    (t.lang ≡ c.lang)
    × (t.encoding ≡ c.encoding)
    × (t.mime ≡ c.mime)
    × (t.user_agent ≡ c.user_agent)
    × (t.hash ≡ c.hash)
SameVersion (image i) (image c) =
    (i.lang ≡ c.lang)
    × (i.mime ≡ c.mime)
    × (i.hash ≡ c.hash)
    × (i.width ≡ c.width)
    × (i.height ≡ c.height)
    × (i.user_agent ≡ c.user_agent)
SameVersion (text t) (image c) = ⊥
SameVersion (image i) (text c) = ⊥

-- OutDate answers false exactly when the cached document is of the same type, agrees in all the metadata that select a version, and was not modified before the original.
pub out_date_iff :
    (d cached : Document)
    → (out_date d cached ≡ false) ↔ (SameVersion d cached × (modification d ≤ modification cached))
unfolding out_date text_out_date image_out_date eqb
out_date_iff (text t) (text c) = (λ h. ground arith, λ h. ground arith)
out_date_iff (image i) (image c) = (λ h. ground arith, λ h. ground arith)
out_date_iff (text t) (image c) = (λ h. ground arith, λ h. absurd h.0)
out_date_iff (image i) (text c) = (λ h. ground arith, λ h. absurd h.0)

root_dir_hash-SameVersion :
    (md5_hex : Bytes → Bytes) (digits : ℕ → Bytes) (d cached : Document)
    → SameVersion d cached
    → root_dir_hash md5_hex digits d ≡ root_dir_hash md5_hex digits cached
unfolding root_dir_hash
root_dir_hash-SameVersion md5_hex digits (text t) (text c) (a, b, e, f, g) = rw (a, b, e, f, g) refl
root_dir_hash-SameVersion md5_hex digits (image i) (image c) (a, b, e, f, g, h) =
    rw (a, b, e, f, g, h) refl
root_dir_hash-SameVersion md5_hex digits (text t) (image c) h = absurd h
root_dir_hash-SameVersion md5_hex digits (image i) (text c) h = absurd h

-- A cached document that is not out of date is stored under the root directory where the original's metadata look for it.
pub root_dir_hash-out_date :
    (md5_hex : Bytes → Bytes) (digits : ℕ → Bytes) (d cached : Document)
    → out_date d cached ≡ false
    → root_dir_hash md5_hex digits d ≡ root_dir_hash md5_hex digits cached
root_dir_hash-out_date md5_hex digits d cached h =
    root_dir_hash-SameVersion md5_hex digits d cached ((out_date_iff d cached).0 h).0
