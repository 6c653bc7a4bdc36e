-- ===== src/Middlewares/Users.antt =====
-- middlewares/basicauth/handler.go: Users, the users and their stored passwords. Base64 is the
-- parameter `base64`, and `digest` gives the sum of nothing for each hash function: Sum(b) appends
-- the sum of what was written to the hash, which is nothing, to b. Hash names are taken as ASCII.
pub mod Passwords
mod Tests
use droute.Prelude.{
  ℕ, ◌+◌, ◌-◌, Bool, true, false, ◌&&◌, Option, none, some, [], ◌∷◌, ◌++◌, Bytes, codes,
  bytes_discrete, Map, find, insert, leb, ◌==◌, if◌then◌else◌,
}
use droute.Http.{is_lower, is_upper}
use droute.Router.Match.{eqb}

abbrev pub lower_byte : ℕ → ℕ
lower_byte b = if is_upper b then b + 32 else b

abbrev pub upper_byte : ℕ → ℕ
upper_byte b = if is_lower b then b - 32 else b

-- strings.ToLower and strings.ToTitle on ASCII
unfoldable pub to_lower : Bytes → Bytes
to_lower [] = []
to_lower (b ∷ s) = lower_byte b ∷ to_lower s

unfoldable pub to_title : Bytes → Bytes
to_title [] = []
to_title (b ∷ s) = upper_byte b ∷ to_title s

pub data HashName : Type 0 where
  md5 sha1 sha224 sha256 sha384 sha512 : HashName

-- Hash; nil is none
abbrev pub hashes : Map Bytes (Option HashName)
hashes =
    (codes "plain", none)
    ∷ (codes "md5", some md5)
    ∷ (codes "sha1", some sha1)
    ∷ (codes "sha224", some sha224)
    ∷ (codes "sha256", some sha256)
    ∷ (codes "sha384", some sha384)
    ∷ (codes "sha512", some sha512)
    ∷ []

-- the map with a missing key as nil
abbrev pub or_nil : Option (Option HashName) → Option HashName
or_nil none = none
or_nil (some h) = h

abbrev pub in_front : ℕ → Option (Bytes × Bytes) → Option (Bytes × Bytes)
in_front b none = none
in_front b (some (a, c)) = some (b ∷ a, c)

-- the two sides of the first colon
unfoldable pub cut_colon : Bytes → Option (Bytes × Bytes)
cut_colon [] = none
cut_colon (b ∷ s) = let rest = in_front b (cut_colon s) in if b == b':' then some ([], s) else rest

abbrev pub both_or_empty : Option (Bytes × Bytes) → Bytes × Bytes
both_or_empty none = ([], [])
both_or_empty (some (ht, [])) = ([], [])
both_or_empty (some (ht, b ∷ pass)) = (ht, b ∷ pass)

-- splitHash
unfoldable pub split_hash : Bytes → Bytes × Bytes
split_hash p = both_or_empty (cut_colon p)

pub data UserError : Type 0 where
  inv_name blank_pass inv_hash : UserError

abbrev pub Users : Type 0
Users = Map Bytes Bytes

module _ (base64 : Bytes → Bytes) (digest : HashName → Bytes) where
  -- what SetPass stores
  abbrev pub stored_pass : Bytes → Bytes → Option HashName → Bytes
  stored_pass plainpass hashtype none = codes "PLAIN" ++ b':' ∷ plainpass
  stored_pass plainpass hashtype (some h) =
      to_title hashtype ++ b':' ∷ base64 (plainpass ++ digest h)

  -- Users.SetPass
  unfoldable pub set_pass : Bytes → Bytes → Bytes → Users → Users × Option UserError
  set_pass [] plainpass hashtype u = (u, some inv_name)
  set_pass (c ∷ user) [] hashtype u = (u, some blank_pass)
  set_pass (c ∷ user) (b ∷ plainpass) hashtype u =
      elim (find bytes_discrete (to_lower hashtype) hashes) [
        | none ↦ (u, some inv_hash)
        | some h ↦
            (insert bytes_discrete (c ∷ user) (stored_pass (b ∷ plainpass) hashtype h) u, none)
      ]

  -- Users.SetRaw
  unfoldable pub set_raw : Bytes → Bytes → Users → Users × Option UserError
  set_raw [] pass u = (u, some inv_name)
  set_raw (c ∷ user) [] u = (u, some blank_pass)
  set_raw (c ∷ user) (b ∷ pass) u = (insert bytes_discrete (c ∷ user) (b ∷ pass) u, none)

  abbrev pub compare_pass : Bytes → Bytes → Option HashName → Bool
  compare_pass stored plainpass none = eqb stored plainpass
  compare_pass stored plainpass (some h) = eqb (base64 (plainpass ++ digest h)) stored

  abbrev pub check_pass : Bytes → Bytes × Bytes → Bool
  check_pass plainpass ([], stored) = false
  check_pass plainpass (b ∷ ht, stored) =
      compare_pass stored plainpass (or_nil (find bytes_discrete (to_lower (b ∷ ht)) hashes))

  -- Users.Validate
  unfoldable pub validate : Bytes → Bytes → Users → Bool
  validate user plainpass u = elim (find bytes_discrete user u) [
    | none ↦ false
    | some p ↦ check_pass plainpass (split_hash p)
  ]
