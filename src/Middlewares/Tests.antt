-- ===== src/Middlewares/Tests.antt =====
-- The theorems on documents, lists and address blocking at concrete data.
use droute.Prelude.{◌≡◌, ◌≢◌, ◌⊎◌, true, false, none, some, List, [], ◌∷◌, Bytes, codes, arith}
use droute.ResponseWriter.{new_response_writer}
use droute.Router.Exchange.{Request, Exchange, HandlerFunc}
use droute.Router.RoundRobin.{contains}
use droute.Middlewares.Documents.{Text, Document, text, text_out_date, out_date}
use droute.Middlewares.Lists.{sort_strings, update_text_list, exist_text, text_list, ip_block}
use droute.Middlewares.Lists.Sorting.{IsOrdered, sort_strings-IsOrdered}
use droute.Middlewares.Lists.Membership.{read_or_kept, exist_text-update_text_list}
use droute.Middlewares.Lists.Blocking.{ip_block_cases}
use droute.Router.Match.{eqb}

abbrev page : Text
page = record {
  file_name = codes "/a.html";
  mtime = 5;
  lang = codes "pt";
  encoding = codes "gzip";
  mime = codes "text/html";
  user_agent = [];
  extension = [];
  hash = [];
}

abbrev original : Document
original = text page

abbrev cached : Document
cached = text (record page { mtime = 9 })

fresh : out_date original cached ≡ false
unfolding out_date text_out_date eqb
fresh = ground arith

abbrev addresses : List Bytes
addresses = codes "10.0.0.2" ∷ codes "10.0.0.1" ∷ []

exist_text-update_text_list_example :
    IsOrdered (update_text_list addresses [])
    × (exist_text (codes "10.0.0.1") (update_text_list addresses [])
        ≡ contains (codes "10.0.0.1") (read_or_kept addresses []))
exist_text-update_text_list_example = exist_text-update_text_list (codes "10.0.0.1") addresses [] tt

abbrev asked : Exchange (Unit {0})
asked = record {
  world = tt;
  rw = new_response_writer;
  req = record {
    method = codes "GET";
    host = codes "h";
    request_uri = codes "/";
    dst = none;
    url = record { scheme = codes "http"; host = codes "h"; path = codes "/" };
    header = [];
  };
}

abbrev answer : HandlerFunc (Unit {0})
answer x = some (record x { rw = record x.rw { code = 200 } })

abbrev from_host : Request → Bytes
from_host req = codes "10.0.0.1"

ip_block_cases_example :
    ((from_host asked.req ≢ [])
      × (contains (from_host asked.req) (sort_strings addresses) ≡ false)
      × (ip_block text_list from_host (λ code err. err) (some (sort_strings addresses)) answer asked
          ≡ answer asked))
    ⊎ (((from_host asked.req ≡ [])
          ⊎ (contains (from_host asked.req) (sort_strings addresses) ≡ true))
        × ((z : Exchange (Unit {0})) × (ip_block text_list from_host
                (λ code err. err)
                (some (sort_strings addresses))
                answer
                asked
              ≡ some z)
            × (z.rw.code ≡ 403)
            × (z.world ≡ asked.world)
            × (z.req ≡ asked.req)))
ip_block_cases_example =
    ip_block_cases (λ code err. err) from_host (sort_strings addresses) answer asked
      (sort_strings-IsOrdered addresses)
