-- ===== src/Middlewares/Storage/Sample.antt =====
-- A file system in a function, without folders of its own, and a form of headers with counts in front, which do what is documented.
use mathlib.Core.List.{append_assoc}
use droute.Prelude.{
  ℕ, zero, suc, ◌≡◌, refl, sym, ap, ◌∙◌, true, Option, none, some, List, [], ◌∷◌, ◌++◌, Bytes,
  bytes_discrete, length, take, drop, ite, arith,
}
use droute.Http.{Header}
use droute.Middlewares.Storage.{FileSystem, Formats}
use droute.Middlewares.Storage.Reading.{or_empty, Files, DecodesHeaders}

abbrev pub Disk : Type 0
Disk = Bytes → Option Bytes

abbrev pub changed : Bytes → Option Bytes → Disk → Disk
changed p o fs = λ q. ite (bytes_discrete p q) o (fs q)

unfoldable pub disk : FileSystem Disk
disk = record {
  mkdir_all = λ p fs. (fs, none);
  open_create = λ p fs. (changed p (some (or_empty (fs p))) fs, none);
  write = λ p c fs. (changed p (some (c ++ drop (length c) (or_empty (fs p)))) fs, none);
  sync = λ p fs. none;
  read_file = λ p fs. fs p;
  stat_mtime = λ p fs. elim (fs p) [ none ↦ none | some b ↦ some 9 ];
  remove = λ p fs. (changed p none fs, true);
  remove_all = λ p fs. fs;
  is_empty = λ p fs. some true;
}

at_path :
    {o o1 : Option Bytes} (q p : Bytes) (fs : Disk)
    → (q ≡ p → o ≡ o1)
    → changed q o fs p ≡ ite (bytes_discrete q p) o1 (fs p)
at_path q p fs e = elim (bytes_discrete q p) [
  | yes same ↦ ground (arith, e same)
  | no other ↦ ground arith
]

pub disk-Files : Files disk
unfolding disk
disk-Files = record {
  read-mkdir_all = λ p q fs fs1 e. ap (λ x. x.0 p) (sym e);
  read-open_create = λ p q fs fs1 e.
      ap (λ x. x.0 p) (sym e) ∙ at_path q p fs (λ same. ap (λ x. some (or_empty (fs x))) same);
  read-write =
      λ p q c old fs fs1 e held. ap (λ x. x.0 p) (sym e) ∙ at_path q p fs (λ same. rw held refl);
}

unfoldable put_bytes : Bytes → Bytes
put_bytes b = length b ∷ b

unfoldable put_values : List Bytes → Bytes
unfolding put_bytes
put_values [] = []
put_values (v ∷ vs) = put_bytes v ++ put_values vs

unfoldable put_entries : Header → Bytes
unfolding put_bytes put_values
put_entries [] = []
put_entries ((k, vs) ∷ h) = put_bytes k ++ (length vs ∷ (put_values vs ++ put_entries h))

unfoldable cut_bytes : Bytes → Bytes × Bytes
cut_bytes [] = ([], [])
cut_bytes (n ∷ b) = (take n b, drop n b)

unfoldable cut_values : ℕ → Bytes → List Bytes × Bytes
unfolding cut_bytes
cut_values zero b = ([], b)
cut_values (suc n) b =
    let (v, rest) = cut_bytes b in let (vs, left) = cut_values n rest in (v ∷ vs, left)

abbrev counted_values : Bytes → List Bytes × Bytes
counted_values [] = ([], [])
counted_values (n ∷ b) = cut_values n b

unfoldable cut_entries : ℕ → Bytes → Header
unfolding cut_bytes cut_values
cut_entries zero b = []
cut_entries (suc n) b =
    let (k, rest) = cut_bytes b in
    let (vs, left) = counted_values rest in (k, vs) ∷ cut_entries n left

unfoldable pub plain_form : Formats
unfolding put_entries cut_entries
plain_form = record {
  join = λ root hash name. root ++ b'/' ∷ hash ++ b'/' ∷ name;
  dir = λ p. p;
  md5_hex = λ s. s;
  digits = λ n. n ∷ [];
  encode_header = λ h. length h ∷ put_entries h;
  decode_header = λ b. elim b [ [] ↦ none | n ∷ rest ↦ some (cut_entries n rest) ];
  seconds = λ n. n ∷ [];
  http_time = λ t. t ∷ [];
  parse_time = λ s. elim s [ [] ↦ none | t ∷ rest ↦ some t ];
  err_text = λ e. e;
}

take-length : (b rest : Bytes) → take (length b) (b ++ rest) ≡ b
take-length [] rest = refl
take-length (x ∷ b) rest = ap (◌∷◌ x) (take-length b rest)

drop-length : (b rest : Bytes) → drop (length b) (b ++ rest) ≡ rest
drop-length [] rest = refl
drop-length (x ∷ b) rest = drop-length b rest

cut_values-put :
    (vs : List Bytes) (rest : Bytes) → cut_values (length vs) (put_values vs ++ rest) ≡ (vs, rest)
unfolding cut_values put_values cut_bytes put_bytes
cut_values-put [] rest = refl
cut_values-put (v ∷ vs) rest =
    rw
      (
        append_assoc v (put_values vs) rest,
        take-length v (put_values vs ++ rest),
        drop-length v (put_values vs ++ rest),
        cut_values-put vs rest,
      )
      refl

-- one entry, in front of others
abbrev put_entry : Bytes → List Bytes → Bytes → Bytes
put_entry k vs rest = length k ∷ (k ++ (length vs ∷ (put_values vs ++ rest)))

cut_entry :
    (n : ℕ) (k : Bytes) (vs : List Bytes) (rest : Bytes)
    → cut_entries (suc n) (put_entry k vs rest) ≡ (k, vs) ∷ cut_entries n rest
unfolding cut_entries cut_bytes
cut_entry n k vs rest =
    rw
      (
        take-length k (length vs ∷ (put_values vs ++ rest)),
        drop-length k (length vs ∷ (put_values vs ++ rest)),
        cut_values-put vs rest,
      )
      refl

cut_entries-put : (h : Header) (rest : Bytes) → cut_entries (length h) (put_entries h ++ rest) ≡ h
unfolding put_entries put_bytes cut_entries
cut_entries-put [] rest = refl
cut_entries-put ((k, vs) ∷ h) rest =
    ap (λ b. cut_entries (suc (length h)) (length k ∷ b))
      (append_assoc k (length vs ∷ (put_values vs ++ put_entries h)) rest
        ∙ ap (λ b. k ++ (length vs ∷ b)) (append_assoc (put_values vs) (put_entries h) rest))
    ∙ cut_entry (length h) k vs (put_entries h ++ rest)
    ∙ ap (λ x. (k, vs) ∷ x) (cut_entries-put h rest)

pub plain_form-decodes : DecodesHeaders plain_form
unfolding plain_form
plain_form-decodes h rest ascii = (h, ap some (cut_entries-put h rest), λ k. refl)
