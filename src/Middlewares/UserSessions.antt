-- ===== src/Middlewares/UserSessions.antt =====
-- middlewares/sessions/handler.go and cookies.go: the session of a request, by the id in its cookie.
-- The cookie's value is coded by gorilla/securecookie, the parameters `decode` and `encode`;
-- `cookie_value` is net/http's Request.Cookie and `cookie_text` its Cookie.String; `push` is how
-- github.com/fcavani/e puts a message on an error.
pub mod Returning
mod Tests
use droute.Prelude.{
  ℕ, ◌⊎◌, inl, inr, Bool, true, false, Option, none, some, List, [], ◌∷◌, Bytes, codes, Map,
  bytes_discrete, find,
}
use droute.Http.{HttpWriter, header_add}
use droute.ErrHandler.{err_handler}
use droute.Sessions.Memory.{
  MemSessions, SessError, sess_found, sess_not_found, sess_in_use, sess_expired, item_found,
  not_found, Answer, done, fail, new, restore, give_back,
}

-- What the handler calls of the interface Sessions.
pub record SessionStore (T X : Type 0) : Type 0 where
  pub new_session : Bytes → T → T × Answer X
  pub restore_session : Bytes → T → T × Answer X
  pub return_session : X → T → T × Answer (Unit {0})

-- MemSessions, where Restore and New read the two given times
abbrev pub mem_store : ℕ → ℕ → SessionStore MemSessions ℕ
mem_store restored made = record {
  new_session = λ uuid m. new uuid made m;
  restore_session = λ uuid m. restore uuid restored m;
  return_session = λ p m. give_back (m.owner p) m;
}

-- The texts of sessions/errors.go and of memstorage.go
abbrev pub error_text : SessError → Bytes
error_text sess_found = codes "session found"
error_text sess_not_found = codes "session not found"
error_text sess_in_use = codes "session is in use"
error_text sess_expired = codes "session expired"
error_text item_found = codes "item found"
error_text not_found = codes "not found"

abbrev pub uuid_key : Bytes
uuid_key = codes "uuid"

abbrev pub or_empty : Option Bytes → Bytes
or_empty none = []
or_empty (some v) = v

pub record CookieCodec (Q : Type 0) : Type 0 where
  pub cookie_value : Bytes → Q → Bytes ⊎ Bytes
  pub decode : Bytes → Bytes → Bytes ⊎ Map Bytes Bytes
  pub encode : Bytes → Map Bytes Bytes → Bytes ⊎ Bytes
  pub cookie_text : Bytes → Bytes → Bytes

module _ {Q : Type 0} (codec : CookieCodec Q) where
  open codec use {cookie_value, decode, encode, cookie_text}

  -- Cookie.UUID; on the left stands an error
  unfoldable pub cookie_uuid : Bytes → Q → Bytes ⊎ Bytes
  cookie_uuid name req = elim (cookie_value name req) [
    | inl e ↦ inl e
    | inr v ↦ elim (decode name v) [
      | inl e ↦ inl e
      | inr values ↦ inr (or_empty (find bytes_discrete uuid_key values))
    ]
  ]

  -- http.SetCookie
  abbrev set_cookie : {S : Type 0} → HttpWriter S → Bytes → S → S
  set_cookie W [] s = s
  set_cookie W (b ∷ text) s =
      HttpWriter.with_header W (header_add (codes "Set-Cookie") (b ∷ text) (HttpWriter.header W s))
        s

  -- Cookie.New, where `fresh` is what rand.Uuid gives
  unfoldable pub new_cookie :
      {S : Type 0} → HttpWriter S → Bytes → (Bytes ⊎ Bytes) → S → S × (Bytes ⊎ Bytes)
  new_cookie W name (inl e) s = (s, inl e)
  new_cookie W name (inr uuid) s = elim (encode name ((uuid_key, uuid) ∷ [])) [
    | inl e ↦ (s, inl e)
    | inr val ↦ (set_cookie W (cookie_text name val) s, inr uuid)
  ]

abbrev pub cant_initiate : Bytes
cant_initiate = codes "can't initiate the session"

abbrev pub cant_create : Bytes
cant_create = codes "can't create a new session"

abbrev pub cant_start : Bytes
cant_start = codes "can't start the session"

module _ {T X S Q : Type 0} (store : SessionStore T X) (W : HttpWriter S)
    (err_body : ℕ → Bytes → Bytes) (push : Bytes → Bytes → Bytes)
    (handler : X → Bytes → Q → T × S → T × S) where
  open store use {new_session, restore_session, return_session}

  abbrev server_error : Bytes → Bytes → S → S
  server_error err message s = err_handler W err_body 500 (some (push err message)) s

  -- the handler with its session, and the deferred Return, whose error is only logged
  unfoldable pub run_session : X → Bytes → Q → T × S → T × S
  run_session x uuid req a = let r = handler x uuid req a in ((return_session x r.0).0, r.1)

  unfoldable pub created : Bytes → Q → S → T × Answer X → T × S
  created uuid req s (t, done x) = run_session x uuid req (t, s)
  created uuid req s (t, fail e) = (t, server_error (error_text e) cant_create s)

  unfoldable pub restored : Bytes → Q → S → T × Answer X → T × S
  restored uuid req s (t, done x) = run_session x uuid req (t, s)
  restored uuid req s (t, fail sess_not_found) = created uuid req s (new_session uuid t)
  restored uuid req s (t, fail sess_found) = (t, server_error (error_text sess_found) cant_start s)
  restored uuid req s (t, fail sess_in_use) =
      (t, server_error (error_text sess_in_use) cant_start s)
  restored uuid req s (t, fail sess_expired) =
      (t, server_error (error_text sess_expired) cant_start s)
  restored uuid req s (t, fail item_found) = (t, server_error (error_text item_found) cant_start s)
  restored uuid req s (t, fail not_found) = (t, server_error (error_text not_found) cant_start s)

  unfoldable pub with_uuid : Bytes → Q → T × S → T × S
  with_uuid uuid req (t, s) = restored uuid req s (restore_session uuid t)

  unfoldable pub initiated : Q → T → S × (Bytes ⊎ Bytes) → T × S
  initiated req t (s, inl e) = (t, server_error e cant_initiate s)
  initiated req t (s, inr uuid) = with_uuid uuid req (t, s)

  -- Handler
  unfoldable pub session_handler : CookieCodec Q → Bytes → (Bytes ⊎ Bytes) → Q → T × S → T × S
  session_handler codec name fresh req (t, s) = elim (cookie_uuid codec name req) [
    | inl e ↦ initiated req t (new_cookie codec W name fresh s)
    | inr uuid ↦ with_uuid uuid req (t, s)
  ]
