-- ===== src/Middlewares/Referrer/Rules.antt =====
-- How the lists of Referrer decide.
use droute.Prelude.{◌≡◌, ◌↔◌, ◌⊎◌, Bool, true, false, Option, some, Bytes, arith}
use droute.Middlewares.Referrer.{
  DefaultRule, deny_all, allow_all, listed, is_fb, is_crawler, referrer_allows,
}

module _ (resolve : Bytes → Option Bytes) (allowed deny fbc : Option (Bytes → Bool)) where
  -- Referrer hands a request with a referrer on exactly when the list of the allowed has it; or neither
  -- list has it and the default allows it, by rule or as the address of a crawler; or the list of
  -- the denied alone has it and it resolves to the address of a crawler.
  pub referrer_allows_iff :
      (rule : DefaultRule) (ref ip : Bytes)
      → (referrer_allows resolve rule allowed deny fbc (some ref) ip ≡ true) ↔ (
          (listed allowed ref ≡ true)
          ⊎ (((listed allowed ref ≡ false)
                × (listed deny ref ≡ false)
                × ((rule ≡ allow_all) ⊎ (is_crawler fbc ip ≡ true)))
              ⊎ ((listed allowed ref ≡ false)
                  × (listed deny ref ≡ true)
                  × (is_fb resolve fbc ref ≡ true))))
  unfolding referrer_allows
  referrer_allows_iff deny_all ref ip = (λ h. ground arith, λ h. ground arith)
  referrer_allows_iff allow_all ref ip = (λ h. ground arith, λ h. ground arith)
