-- ===== src/Http/Headers.antt =====
-- Laws of the header operations.
use mathlib.Core.List.{append-nil}
use droute.Prelude.{
  ℕ, ◌≡◌, refl, ap, ◌∙◌, if_pos, if_neg, inl, inr, Bool, true, false, [], ◌∷◌, ◌++◌, Bytes,
  bytes_discrete, find-insert, find-delete, ◌==◌, arith, ite, Bool-cases,
}
use droute.Http.{
  is_lower, is_upper, is_token, all_tokens, cased, case_words, canonical, Header, list_or_nil,
  values, header_add, header_set, header_del,
}

is_token-cased : (upper : Bool) (b : ℕ) → is_token b ≡ true → is_token (cased upper b) ≡ true
unfolding is_token is_lower is_upper cased
is_token-cased true b h = ground arith
is_token-cased false b h = ground arith

cased-cased : (upper : Bool) (b : ℕ) → cased upper (cased upper b) ≡ cased upper b
unfolding cased is_lower is_upper
cased-cased true b = ground arith
cased-cased false b = ground arith

all_tokens-case_words :
    (upper : Bool) (s : Bytes) → all_tokens s ≡ true → all_tokens (case_words upper s) ≡ true
unfolding all_tokens case_words
all_tokens-case_words upper [] h = refl
all_tokens-case_words upper (b ∷ s) h =
    ground (arith, is_token-cased upper b, all_tokens-case_words (cased upper b == b'-') s)

case_words-case_words :
    (upper : Bool) (s : Bytes) → case_words upper (case_words upper s) ≡ case_words upper s
unfolding case_words
case_words-case_words upper [] = refl
case_words-case_words upper (b ∷ s) =
    rw (cased-cased upper b)
      (ap (◌∷◌ (cased upper b)) (case_words-case_words (cased upper b == b'-') s))

-- A canonical key stays as it is.
pub canonical-canonical : (key : Bytes) → canonical (canonical key) ≡ canonical key
unfolding canonical
canonical-canonical key = elim (Bool-cases (all_tokens key)) [
  | inl ok ↦ rw (ok, all_tokens-case_words true key ok) (case_words-case_words true key)
  | inr bad ↦ rw (bad, bad) refl
]

pub values-header_add :
    (key q v : Bytes) (h : Header)
    → values q (header_add key v h)
      ≡ values q h ++ ite (bytes_discrete (canonical key) q) (v ∷ []) []
unfolding values header_add
values-header_add key q v h =
    ap list_or_nil
      (find-insert bytes_discrete (canonical key) q (values (canonical key) h ++ v ∷ []) h)
    ∙ (elim (bytes_discrete (canonical key) q) [
      | yes same ↦
          rw
            (
              if_pos (bytes_discrete (canonical key) q) same,
              if_pos (bytes_discrete (canonical key) q) same,
            )
            (rw same refl)
      | no other ↦
          rw
            (
              if_neg (bytes_discrete (canonical key) q) other,
              if_neg (bytes_discrete (canonical key) q) other,
              append-nil (values q h),
            )
            refl
    ])

pub values-header_set :
    (key q v : Bytes) (h : Header)
    → values q (header_set key v h) ≡ ite (bytes_discrete (canonical key) q) (v ∷ []) (values q h)
unfolding values header_set
values-header_set key q v h =
    ground (arith, find-insert bytes_discrete (canonical key) q (v ∷ []) h)

pub values-header_del :
    (key q : Bytes) (h : Header)
    → values q (header_del key h) ≡ ite (bytes_discrete (canonical key) q) [] (values q h)
unfolding values header_del
values-header_del key q h = ground (arith, find-delete bytes_discrete (canonical key) q h)
