-- ===== src/Http.antt =====
-- What the handlers use of net/http: headers, whose keys are kept in canonical form, and the
-- interface http.ResponseWriter.
pub mod Headers
use droute.Prelude.{
  ℕ, ◌+◌, ◌-◌, Bool, true, false, ◌&&◌, ◌||◌, Option, none, some, List, [], ◌∷◌, ◌++◌, Bytes, Map,
  bytes_discrete, find, insert, delete, leb, ◌==◌, if◌then◌else◌,
}

unfoldable pub is_lower : ℕ → Bool
is_lower b = leb b'a' b && leb b b'z'

unfoldable pub is_upper : ℕ → Bool
is_upper b = leb b'A' b && leb b b'Z'

-- A byte that a header's field name may hold: a letter, a digit or one of !#$%&'*+-.^_`|~
unfoldable pub is_token : ℕ → Bool
is_token b =
    is_lower b
    || is_upper b
    || (leb b'0' b && leb b b'9')
    || b == 33
    || (leb 35 b && leb b 39)
    || b == 42
    || b == 43
    || b == 45
    || b == 46
    || (leb 94 b && leb b 96)
    || b == 124
    || b == 126

unfoldable pub all_tokens : Bytes → Bool
all_tokens [] = true
all_tokens (b ∷ s) = is_token b && all_tokens s

unfoldable pub cased : Bool → ℕ → ℕ
cased true b = if is_lower b then b - 32 else b
cased false b = if is_upper b then b + 32 else b

-- `upper` holds at the start of the key and behind each dash.
unfoldable pub case_words : Bool → Bytes → Bytes
case_words upper [] = []
case_words upper (b ∷ s) = cased upper b ∷ case_words (cased upper b == b'-') s

-- textproto.CanonicalMIMEHeaderKey
unfoldable pub canonical : Bytes → Bytes
canonical key = if all_tokens key then case_words true key else key

abbrev pub Header : Type 0
Header = Map Bytes (List Bytes)

abbrev pub list_or_nil : Option (List Bytes) → List Bytes
list_or_nil none = []
list_or_nil (some vs) = vs

-- The values under a key that is already canonical.
unfoldable pub values : Bytes → Header → List Bytes
values key h = list_or_nil (find bytes_discrete key h)

abbrev pub first_or_empty : List Bytes → Bytes
first_or_empty [] = []
first_or_empty (v ∷ vs) = v

unfoldable pub header_get : Bytes → Header → Bytes
header_get key h = first_or_empty (values (canonical key) h)

unfoldable pub header_add : Bytes → Bytes → Header → Header
header_add key v h = insert bytes_discrete (canonical key) (values (canonical key) h ++ v ∷ []) h

unfoldable pub header_set : Bytes → Bytes → Header → Header
header_set key v h = insert bytes_discrete (canonical key) (v ∷ []) h

unfoldable pub header_del : Bytes → Header → Header
header_del key h = delete bytes_discrete (canonical key) h

-- http.ResponseWriter over a state. `Header()` hands out the map itself: a handler reads it by
-- `header` and a change of it is `with_header`. `write` gives the count of bytes and an error.
pub record HttpWriter (S : Type 0) : Type 0 where
  pub header : S → Header
  pub with_header : Header → S → S
  pub write_header : ℕ → S → S
  pub write : Bytes → S → S × ℕ × Option Bytes
