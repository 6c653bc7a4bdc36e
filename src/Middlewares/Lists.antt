-- ===== src/Middlewares/Lists.antt =====
-- list/list.go: TextList and Regexp, and router/ipblock.go: IPBlock. viper's GetStringSlice is what
-- `slice` stands for, and the package regexp is the parameter of Regexp. The lock makes each method
-- one step.
pub mod Order
pub mod Sorting
pub mod Membership
pub mod Blocking
use droute.Prelude.{
  ℕ, Bool, true, false, ◌&&◌, Option, none, some, List, [], ◌∷◌, Bytes, codes, length, get_elem?,
  ltb, if◌then◌else◌, search_index,
}
use droute.ErrHandler.{err_handler}
use droute.ResponseWriter.{response_writer}
use droute.Router.Match.{eqb}
use droute.Router.Exchange.{Exchange, Request, HandlerFunc}

-- `a <= b` on strings
unfoldable pub str_le : Bytes → Bytes → Bool
str_le [] b = true
str_le (x ∷ a) [] = false
str_le (x ∷ a) (y ∷ b) =
    let rest = str_le a b in if ltb x y then true else if ltb y x then false else rest

-- sort.Strings: the strings in order. The sort is by insertion; a total order has one sorted list.
unfoldable pub insert_string : Bytes → List Bytes → List Bytes
insert_string a [] = a ∷ []
insert_string a (b ∷ l) = if str_le a b then a ∷ b ∷ l else b ∷ insert_string a l

unfoldable pub sort_strings : List Bytes → List Bytes
sort_strings [] = []
sort_strings (a ∷ l) = insert_string a (sort_strings l)

unfoldable pub str_reaches : Bytes → Option Bytes → Bool
str_reaches x none = true
str_reaches x (some a) = str_le x a

unfoldable pub str_holds : Bytes → Option Bytes → Bool
str_holds x none = false
str_holds x (some a) = eqb a x

-- the interface List, over a state
pub record Lister (S : Type 0) : Type 0 where
  pub exist : Bytes → S → Bool
  pub update : List Bytes → S → S

-- NewTextList; none is the error for an empty slice
unfoldable pub new_text_list : List Bytes → Option (List Bytes)
new_text_list [] = none
new_text_list (s ∷ slice) = some (sort_strings (s ∷ slice))

-- TextList.Update keeps the list if there is nothing to read.
unfoldable pub update_text_list : List Bytes → List Bytes → List Bytes
update_text_list [] l = l
update_text_list (s ∷ slice) l = sort_strings (s ∷ slice)

-- TextList.Exist, with sort.SearchStrings
unfoldable pub exist_text : Bytes → List Bytes → Bool
exist_text x l =
    let i = search_index (λ k. str_reaches x (get_elem? l k)) (length l) in
    ltb i (length l) && str_holds x (get_elem? l i)

abbrev pub text_list : Lister (List Bytes)
text_list = record { exist = exist_text; update = update_text_list }

-- What the code calls of the package regexp.
pub record Regexps (R : Type 0) : Type 0 where
  pub compile : Bytes → Option R
  pub match_string : R → Bytes → Bool

module _ {R : Type 0} (regexps : Regexps R) where
  open regexps use {compile, match_string}

  unfoldable pub compile_all : List Bytes → Option (List R)
  compile_all [] = some []
  compile_all (pattern_text ∷ slice) = elim (compile pattern_text) [
    | none ↦ none
    | some r ↦ elim (compile_all slice) [ none ↦ none | some rs ↦ some (r ∷ rs) ]
  ]

  -- NewRegexpList; none is an error
  unfoldable pub new_regexp_list : List Bytes → Option (List R)
  new_regexp_list [] = none
  new_regexp_list (s ∷ slice) = compile_all (s ∷ slice)

  -- Regexp.Update: an empty slice is only logged, and the first expression that does not compile
  -- ends the loop.
  unfoldable pub update_regexp : List Bytes → List R → List R
  update_regexp [] rs = []
  update_regexp (pattern_text ∷ slice) rs = elim (compile pattern_text) [
    | none ↦ []
    | some r ↦ r ∷ update_regexp slice rs
  ]

  -- Regexp.Exist
  unfoldable pub exist_regexp : Bytes → List R → Bool
  exist_regexp x [] = false
  exist_regexp x (r ∷ rs) =
      let further = exist_regexp x rs in if match_string r x then true else further

  abbrev pub regexp_list : Lister (List R)
  regexp_list = record { exist = exist_regexp; update = update_regexp }

abbrev pub ip_deny : Bytes
ip_deny = codes "ip deny"

-- `deny` is a pointer to a list, which may be nil, and `remote_ip` is RemoteIP of
-- github.com/fcavani/http, which gives "" beside an error.
module _ {S : Type 0} (list : Lister S) where
  unfoldable pub allow_ip : Bytes → Option S → Bool
  allow_ip [] deny = false
  allow_ip (b ∷ ip) none = false
  allow_ip (b ∷ ip) (some l) = if list.exist (b ∷ ip) l then false else true

-- `deny` is a list, or nil, and `remote_ip` is RemoteIP of github.com/fcavani/http, which gives ""
-- beside an error.
module _ {S W : Type 0} (list : Lister S) (remote_ip : Request → Bytes)
    (err_body : ℕ → Bytes → Bytes) where
  -- IPBlock
  unfoldable pub ip_block : Option S → HandlerFunc W → HandlerFunc W
  ip_block deny handler x =
      let run = handler x in
      let denied =
        some (record x { rw = err_handler response_writer err_body 403 (some ip_deny) x.rw }) in
      if allow_ip list (remote_ip x.req) deny then run else denied
