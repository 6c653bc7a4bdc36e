-- ===== src/Middlewares/Caching/Tests.antt =====
-- The theorems on the cache at concrete files and requests.
use droute.Prelude.{
  ℕ, ◌≡◌, ◌≢◌, inl, inr, refl, true, false, none, some, List, [], ◌∷◌, ◌++◌, Bytes, codes,
  has_prefix, bytes_discrete, find, insert, delete, drop, in_order, in_order-Visits, arith,
}
use droute.Router.Match.{eqb}
use droute.Http.{
  Header, values, header_add, header_del, header_get, canonical, case_words, all_tokens, cased,
  is_lower, is_upper, is_token,
}
use droute.ResponseWriter.{ResponseWriter, response_writer, new_response_writer}
use droute.ResponseWriter.Copying.{AllCanonical}
use droute.Middlewares.Documents.{Document, text, root_dir_hash}
use droute.Middlewares.Storage.{
  body_path, header_path, store, write_file, read_to, get_mtime, Visited, file, folder, remove_file,
  clean_file, clean_files,
}
use droute.Middlewares.Storage.Reading.{
  Holds, or_empty, is_ascii, all_ascii, is_ascii_header, read_to-store,
}
use droute.Middlewares.Storage.Surviving.{read-clean_files}
use droute.Middlewares.Storage.Tree.{Tree, tree, plain_tree, tree-Removes}
use droute.Middlewares.Storage.Sample.{
  Disk, changed, disk, disk-Files, plain_form, plain_form-decodes,
}
use droute.Middlewares.Caching.{
  Described, described, cache_ctrl, add_header, measured, not_modified, miss,
}
use droute.Middlewares.Caching.Hits.{handled, cache-cached}
use droute.Middlewares.Caching.Misses.{Result, miss_cases}

program : Unit {0}
unfolding disk plain_form store write_file body_path header_path root_dir_hash not_modified
    header_get header_add header_del values canonical case_words all_tokens cased is_lower is_upper
    is_token find insert delete bytes_discrete get_mtime
program = tt

abbrev page : Document
page = text (record {
  file_name = codes "p";
  mtime = 5;
  lang = codes "en";
  encoding = [];
  mime = [];
  user_agent = [];
  hash = [];
  extension = [];
})

abbrev old_disk : Disk
old_disk = changed (body_path plain_form (codes "c") page) (some (codes "longer")) (λ p. none)

abbrev new_disk : Disk
new_disk = (store disk plain_form (codes "c") page (codes "new") [] old_disk).0

paths_differ : body_path plain_form (codes "c") page ≢ header_path plain_form (codes "c") page
unfolding program
paths_differ e = ground (arith, e)

stored : store disk plain_form (codes "c") page (codes "new") [] old_disk ≡ (new_disk, none)
unfolding program
stored = refl

nothing-AllCanonical : AllCanonical []
unfolding program
nothing-AllCanonical k vs e = absurd (ground arith)

nothing_ascii : is_ascii_header [] ≡ true
unfolding is_ascii_header
nothing_ascii = refl

read_to-store_example :
    let r =
      read_to disk plain_form
        (codes "c")
        response_writer
        (in_order bytes_discrete)
        page
        200
        new_disk
        new_response_writer in
    (r.1 ≡ true)
    × Holds
        (codes "new"
          ++ drop 3 (or_empty (disk.read_file (body_path plain_form (codes "c") page) old_disk)))
        200
        []
        new_response_writer
        r.0
read_to-store_example =
    read_to-store disk plain_form (codes "c") disk-Files plain_form-decodes
      (in_order bytes_discrete) (in_order-Visits bytes_discrete) page (codes "new") [] 200 old_disk
      new_disk new_response_writer nothing-AllCanonical nothing_ascii paths_differ stored

-- three files in two folders
abbrev full_tree : Tree
full_tree = record {
  folders = codes "/c" ∷ codes "/c/a" ∷ codes "/c/b" ∷ [];
  files = (codes "/c/a/x", codes "one") ∷ (codes "/c/b/y", codes "two") ∷ (codes "/c/b/z", []) ∷ [];
}

-- Two of the files are old; the clock moves on between the visits.
abbrev walk : List (ℕ × Visited)
walk =
    (100, folder (codes "/c/a"))
    ∷ (100, file (codes "/c/a/x") (some 1))
    ∷ (101, file (codes "/c/b/y") (some 90))
    ∷ (103, file (codes "/c/b/z") (some 5))
    ∷ []

abbrev swept : Tree
swept = clean_files tree (plain_tree plain_form) 20 walk full_tree

-- The old files are gone, with the one folder that is empty then.
swept_runs : swept ≡ record {
  folders = codes "/c" ∷ codes "/c/b" ∷ [];
  files = (codes "/c/b/y", codes "two") ∷ [];
}
unfolding program tree plain_tree clean_files clean_file remove_file eqb has_prefix
swept_runs = refl

read-clean_files_example :
    tree.read_file (codes "/c/b/y") swept ≡ tree.read_file (codes "/c/b/y") full_tree
read-clean_files_example =
    read-clean_files tree (plain_tree plain_form) (tree-Removes plain_form) 20 (codes "/c/b/y") walk
      full_tree
      (inl (λ e. ground (arith, e)), (inr (omega arith), (inl (λ e. ground (arith, e)), tt)))

abbrev meta : Unit {0} → Described (Unit {0})
meta r = described page tt

abbrev no_header : Unit {0} → Header
no_header r = []

abbrev says_hi : Unit {0} → ResponseWriter → ResponseWriter
says_hi r w = record w { buffer = codes "hi" }

abbrev fails : Unit {0} → ResponseWriter → ResponseWriter
fails r w = record w { code = 502; buffer = codes "bad" }

abbrev no_files : Disk
no_files = λ p. none

abbrev hi_files : Disk
hi_files =
    (store disk plain_form (codes "c") page (codes "hi")
      (measured plain_form (says_hi tt new_response_writer)) no_files).0

hi_stored :
    store disk plain_form
      (codes "c")
      page
      (codes "hi")
      (measured plain_form (says_hi tt new_response_writer))
      no_files
    ≡ (hi_files, none)
unfolding program
hi_stored = refl

hi_ascii : is_ascii_header (measured plain_form (says_hi tt new_response_writer)) ≡ true
unfolding program is_ascii_header all_ascii is_ascii
hi_ascii = refl

nothing_cached : get_mtime disk plain_form (codes "c") page no_files ≡ none
unfolding program
nothing_cached = refl

hi_there : disk.stat_mtime (body_path plain_form (codes "c") page) hi_files ≡ some 9
unfolding program
hi_there = refl

no_date : not_modified plain_form no_header page tt ≡ false
unfolding program
no_date = refl

cache-cached_example :
    let first =
      handled disk plain_form
        (codes "c")
        (in_order bytes_discrete)
        60
        no_header
        meta
        1
        says_hi
        tt
        new_response_writer
        no_files in
    let second =
      handled disk plain_form
        (codes "c")
        (in_order bytes_discrete)
        60
        no_header
        meta
        2
        fails
        tt
        new_response_writer
        first.1 in
    (second.1 ≡ first.1)
    × (second.0.code ≡ 200)
    × (second.0.buffer
        ≡ []
          ++ (codes "hi"
              ++ drop 2
                  (or_empty (disk.read_file (body_path plain_form (codes "c") page) no_files))))
    × ((q : Bytes)
        → values q second.0.header
          ≡ values q
              (cache_ctrl response_writer disk plain_form
                (codes "c")
                (in_order bytes_discrete)
                60
                2
                page
                0
                (add_header response_writer
                  (codes "X-Cache")
                  (codes "true")
                  new_response_writer)).header
            ++ values q (measured plain_form (says_hi tt new_response_writer)))
cache-cached_example =
    cache-cached disk plain_form (codes "c") disk-Files plain_form-decodes (in_order bytes_discrete)
      (in_order-Visits bytes_discrete) 60 no_header meta says_hi fails page tt tt tt tt
      new_response_writer new_response_writer no_files hi_files 1 2 9 refl refl nothing_cached
      (refl, (λ e. ground (arith, e)), nothing-AllCanonical, hi_ascii, hi_stored) paths_differ
      hi_there (omega arith) no_date

miss_cases_example :
    Result disk plain_form
      (codes "c")
      (in_order bytes_discrete)
      60
      1
      no_header
      meta
      fails
      page
      (fails tt new_response_writer)
      new_response_writer
      no_files
      (miss response_writer disk plain_form
        (codes "c")
        (in_order bytes_discrete)
        60
        1
        no_header
        meta
        fails
        page
        tt
        new_response_writer
        no_files)
miss_cases_example =
    miss_cases disk plain_form (codes "c") (in_order bytes_discrete) 60 1 no_header meta fails page
      tt new_response_writer no_files
