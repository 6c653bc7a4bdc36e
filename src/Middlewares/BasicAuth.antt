-- ===== src/Middlewares/BasicAuth.antt =====
-- middlewares/basicauth/basic.go and the handler BasicAuth of handler.go. Base64 is a parameter, and the
-- spaces of strings.Fields are those of ASCII.
pub mod Credentials
mod Tests
use droute.Prelude.{
  ℕ, Bool, true, false, ◌||◌, ◌&&◌, Option, none, some, List, [], ◌∷◌, ◌++◌, Bytes, codes,
  bytes_discrete, Map, find, split, leb, ◌==◌, if◌then◌else◌,
}
use droute.Http.{Header, HttpWriter, header_add}
use droute.ErrHandler.{err_handler}
use droute.Router.Match.{eqb}

pub data BasicError : Type 0 where
  no_auth_header inv_auth_header inv_auth_string inv_auth_scheme decode_failed inv_usr_pass :
      BasicError

pub data Basic : Type 0 where
  credentials : Bytes → Bytes → Basic
  refused : BasicError → Basic

unfoldable pub is_space : ℕ → Bool
is_space b = b == 32 || (leb 9 b && leb b 13)

abbrev pub push_word : Bytes → List Bytes → List Bytes
push_word [] words = words
push_word (b ∷ w) words = (b ∷ w) ∷ words

-- the fields behind the bytes `word` of one that has begun
unfoldable pub fields_from : Bytes → Bytes → List Bytes
fields_from word [] = push_word word []
fields_from word (b ∷ s) =
    let next = push_word word (fields_from [] s) in
    let longer = fields_from (word ++ b ∷ []) s in if is_space b then next else longer

-- strings.Fields
unfoldable pub fields : Bytes → List Bytes
fields s = fields_from [] s

module _ (decode64 : Bytes → Option Bytes) where
  abbrev pub user_and_pass : List Bytes → Basic
  user_and_pass (user ∷ pass ∷ []) = credentials user pass
  user_and_pass [] = refused inv_usr_pass
  user_and_pass (user ∷ []) = refused inv_usr_pass
  user_and_pass (user ∷ pass ∷ x ∷ more) = refused inv_usr_pass

  abbrev pub decoded : Option Bytes → Basic
  decoded none = refused decode_failed
  decoded (some s) = user_and_pass (split s (codes ":"))

  abbrev pub of_fields : List Bytes → Basic
  of_fields (scheme ∷ text ∷ []) =
      if eqb scheme (codes "Basic") then decoded (decode64 text) else refused inv_auth_scheme
  of_fields [] = refused inv_auth_string
  of_fields (scheme ∷ []) = refused inv_auth_string
  of_fields (scheme ∷ text ∷ x ∷ more) = refused inv_auth_string

  -- basic
  unfoldable pub basic : List Bytes → Basic
  basic [] = refused inv_auth_header
  basic (auth ∷ more) = of_fields (fields auth)

  -- Basic
  unfoldable pub basic_of : Header → Basic
  basic_of h = elim (find bytes_discrete (codes "Authorization") h) [
    | none ↦ refused no_auth_header
    | some auth ↦ basic auth
  ]

  module _ {S : Type 0} (W : HttpWriter S) (err_body : ℕ → Bytes → Bytes)
      (err_text : BasicError → Bytes) where
    abbrev pub ask : Bytes → S → S
    ask realm s = W.write_header 401 (
        W.with_header
          (header_add (codes "WWW-Authenticate") (codes "Basic realm=\"" ++ realm ++ codes "\"")
            (W.header s))
          s)

    abbrev pub forbid : Bytes → S → S
    forbid err s = err_handler W err_body 403 (some err) s

    abbrev pub decide : Bytes → (Bytes → Bytes → Bool) → (S → S) → Basic → S → S
    decide realm validate handler (refused no_auth_header) s = ask realm s
    decide realm validate handler (refused inv_auth_header) s = forbid (err_text inv_auth_header) s
    decide realm validate handler (refused inv_auth_string) s = forbid (err_text inv_auth_string) s
    decide realm validate handler (refused inv_auth_scheme) s = forbid (err_text inv_auth_scheme) s
    decide realm validate handler (refused decode_failed) s = forbid (err_text decode_failed) s
    decide realm validate handler (refused inv_usr_pass) s = forbid (err_text inv_usr_pass) s
    decide realm validate handler (credentials user pass) s =
        let run = handler s in
        if validate user pass then run else forbid (codes "user or password invalid") s

    -- BasicAuth, for a request with these headers
    unfoldable pub basic_auth : Bytes → (Bytes → Bytes → Bool) → (S → S) → Header → S → S
    basic_auth realm validate handler h s = decide realm validate handler (basic_of h) s
