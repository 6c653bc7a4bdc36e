-- ===== src/Middlewares/UserRequest/Tests.antt =====
-- The theorems on UserRequest at concrete parsers.
use droute.Prelude.{
  ◌⊎◌, ◌<◌, ◌≤◌, ◌++◌, pos, neg_of, read_digits, atoi, to_word, times_minus, arith, ◌≡◌, refl, true,
  none, some, [], ◌∷◌, Bytes, codes,
}
use droute.Http.{Header}
use droute.Middlewares.UserRequest.{
  Config, Parsers, new_user_request, is_localhost, media, charset, encoding, language,
  time_zone_js_2utc, utc, fixed,
}
use droute.Middlewares.UserRequest.Staying.{answers_stay}
use droute.Middlewares.UserRequest.Zones.{name_of, time_zone_sign}

abbrev parsers : Parsers
parsers = record {
  best = λ params accepted. some params;
  best_lang = λ params accepted. none;
  is_param = λ s. true;
  query = some ((codes "lang", codes "pt") ∷ []);
  lookup_host = λ host. some (host ∷ []);
  ip = codes "10.0.0.1";
  digits = λ n. to_word n ∷ [];
  odd_minutes = λ n. pos 0;
}

abbrev config : Config
config = record {
  accepted_languages = [];
  accepted_encoding = [];
  accepted_medias = [];
  accepted_charsets = [];
  default_lang = codes "en";
}

abbrev header : Header
header = (codes "Accept", codes "text/html" ∷ []) ∷ []

abbrev hosts_asked : Bytes
hosts_asked = codes "10.0.0.1"

asked_twice :
    ((media parsers config header (media parsers config header new_user_request).0).1
      ≡ (media parsers config header new_user_request).1)
    × ((charset parsers config header (charset parsers config header new_user_request).0).1
        ≡ (charset parsers config header new_user_request).1)
    × ((encoding parsers config header (encoding parsers config header new_user_request).0).1
        ≡ (encoding parsers config header new_user_request).1)
    × ((language parsers config header (language parsers config header new_user_request).0).1
        ≡ (language parsers config header new_user_request).1)
    × ((is_localhost parsers
          (hosts_asked ∷ [])
          (is_localhost parsers (hosts_asked ∷ []) new_user_request).0).1
        ≡ (is_localhost parsers (hosts_asked ∷ []) new_user_request).1)
asked_twice = answers_stay parsers config header (hosts_asked ∷ []) new_user_request

reads_600 : read_digits 0 (codes "600") ≡ some 600
unfolding read_digits
reads_600 = refl

time_zone_sign_example :
    ((600 < 60)
      × (time_zone_js_2utc parsers (codes "600") ≡ some utc)
      × (time_zone_js_2utc parsers (codes "-600") ≡ some utc))
    ⊎ ((60 ≤ 600)
        × (time_zone_js_2utc parsers (codes "600")
            ≡ some (fixed (codes "UTC-" ++ name_of parsers 600) (neg_of 36000)))
        × (time_zone_js_2utc parsers (codes "-600")
            ≡ some (fixed (codes "UTC+" ++ name_of parsers 600) (neg_of 36000))))
time_zone_sign_example = time_zone_sign parsers b'6' (codes "00") 600 refl reads_600 (omega arith)

-- Atoi's range, and the least int, which stays negative and is given the offset 0
out_of_range : time_zone_js_2utc parsers (codes "9223372036854775808") ≡ none
unfolding time_zone_js_2utc atoi read_digits
out_of_range = refl

least_int :
    time_zone_js_2utc parsers (codes "-9223372036854775808")
    ≡ some (fixed (codes "UTC+" ++ parsers.digits (neg_of 153722867280912930)) (pos 0))
unfolding time_zone_js_2utc atoi read_digits times_minus
least_int = refl
