-- ===== src/Middlewares/Referrer.antt =====
-- middlewares/iplists: Referrer of referrer.go and IPBlock of ip.go, over lists that may be nil. The URL of
-- the referrer, the address of the request, the crawler list and the name service are parameters.
pub mod Rules
use droute.Prelude.{
  ℕ, Bool, true, false, ◌&&◌, not, Option, none, some, [], ◌∷◌, Bytes, codes, if◌then◌else◌,
}
use droute.Http.{HttpWriter}
use droute.ErrHandler.{err_handler}

pub data DefaultRule : Type 0 where
  deny_all allow_all : DefaultRule

-- Exist of a list, where a nil list is none
abbrev pub listed : Option (Bytes → Bool) → Bytes → Bool
listed none s = false
listed (some exist) s = exist s

-- isFB, for a crawler list that is not nil
abbrev pub resolved_in : (Bytes → Bool) → Option Bytes → Bool
resolved_in have_ip none = false
resolved_in have_ip (some ip) = have_ip ip

-- `fbc != nil && isFB(fbc, ref)`
abbrev pub is_fb : (Bytes → Option Bytes) → Option (Bytes → Bool) → Bytes → Bool
is_fb resolve none ref = false
is_fb resolve (some have_ip) ref = resolved_in have_ip (resolve ref)

-- `ip != "" && fbc != nil && fbc.HaveIP(ip)`
abbrev pub is_crawler : Option (Bytes → Bool) → Bytes → Bool
is_crawler fbc [] = false
is_crawler none (c ∷ ip) = false
is_crawler (some have_ip) (c ∷ ip) = have_ip (c ∷ ip)

-- what Referrer does where no list has decided
abbrev pub by_default : DefaultRule → Option (Bytes → Bool) → Bytes → Bool
by_default allow_all fbc ip = true
by_default deny_all fbc ip = is_crawler fbc ip

module _ (resolve : Bytes → Option Bytes) (rule : DefaultRule)
    (allowed deny fbc : Option (Bytes → Bool)) where
  -- whether Referrer hands the request on; a referrer that is nil is none
  unfoldable pub referrer_allows : Option Bytes → Bytes → Bool
  referrer_allows none ip = by_default rule fbc ip
  referrer_allows (some ref) ip =
      if listed allowed ref
      then true
      else if listed deny ref
      then is_fb resolve fbc ref
      else by_default rule fbc ip

-- whether IPBlock hands the request on
unfoldable pub ip_allows : Option (Bytes → Bool) → Bytes → Bool
ip_allows deny [] = false
ip_allows none (c ∷ ip) = false
ip_allows (some exist) (c ∷ ip) = not (exist (c ∷ ip))

module _ {S : Type 0} (W : HttpWriter S) (err_body : ℕ → Bytes → Bytes) where
  -- the two ways in which both handlers end
  unfoldable pub guard : Bytes → Bool → (S → S) → S → S
  guard message ok handler s =
      let run = handler s in if ok then run else err_handler W err_body 403 (some message) s

  -- Referrer
  unfoldable pub referrer :
      (Bytes → Option Bytes)
      → DefaultRule
      → Option (Bytes → Bool)
      → Option (Bytes → Bool)
      → Option (Bytes → Bool)
      → (S → S)
      → Option Bytes
      → Bytes
      → S
      → S
  referrer resolve rule allowed deny fbc handler ref ip s =
      guard (codes "referrer deny") (referrer_allows resolve rule allowed deny fbc ref ip) handler s

  -- IPBlock
  unfoldable pub list_ip_block : Option (Bytes → Bool) → (S → S) → Bytes → S → S
  list_ip_block deny handler ip s = guard (codes "ip deny") (ip_allows deny ip) handler s
