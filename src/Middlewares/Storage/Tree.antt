-- ===== src/Middlewares/Storage/Tree.antt =====
-- A file system with folders, which does what is documented of Remove, IsEmpty and RemoveAll: RemoveAll of
-- a path takes away what lies under it, and IsEmpty is true of folders without content and of empty files.
use droute.Prelude.{
  ◌≡◌, ◌⊎◌, refl, ap, Bool, true, false, not, ◌&&◌, Option, none, some, List, [], ◌∷◌, ◌++◌, Bytes,
  Map, bytes_discrete, find, insert, delete, find-delete, has_prefix, length, drop, ◌==◌,
  if◌then◌else◌, ite, arith, inl, inr, Option-cases, Bool-cases,
}
use droute.Router.RoundRobin.{contains}
use droute.Middlewares.Storage.{FileSystem, Formats}
use droute.Middlewares.Storage.Reading.{or_empty}
use droute.Middlewares.Storage.Surviving.{Removes}

pub record Tree : Type 0 where
  pub folders : List Bytes
  pub files : Map Bytes Bytes

unfoldable pub has_slash : Bytes → Bool
has_slash [] = false
has_slash (c ∷ s) = let rest = has_slash s in if c == b'/' then true else rest

-- the path in front of the last slash
unfoldable pub dir_of : Bytes → Bytes
unfolding has_slash
dir_of [] = []
dir_of (c ∷ s) = let rest = c ∷ dir_of s in if has_slash s then rest else []

abbrev pub under : Bytes → Bytes → Bool
under q p = has_prefix p (q ++ b'/' ∷ [])

unfoldable pub none_under : Bytes → List Bytes → Bool
none_under q [] = true
none_under q (p ∷ ps) = not (under q p) && none_under q ps

unfoldable pub no_file_under : Bytes → Map Bytes Bytes → Bool
no_file_under q [] = true
no_file_under q ((p, b) ∷ files) = not (under q p) && no_file_under q files

unfoldable pub drop_under : Bytes → Map Bytes Bytes → Map Bytes Bytes
drop_under q [] = []
drop_under q ((p, b) ∷ files) =
    let rest = drop_under q files in if under q p then rest else (p, b) ∷ rest

unfoldable pub drop_folders : Bytes → List Bytes → List Bytes
drop_folders q [] = []
drop_folders q (p ∷ ps) =
    let rest = drop_folders q ps in if under q (p ++ b'/' ∷ []) then rest else p ∷ rest

-- Remove of a file; the folder that it lies in must be there.
abbrev pub remove_at : Bytes → Option Bytes → Tree → Tree × Bool
remove_at q none t = (t, false)
remove_at q (some b) t = (record t { files = delete bytes_discrete q t.files }, true)

abbrev pub empty_file : Option Bytes → Option Bool
empty_file none = none
empty_file (some b) = some (length b == 0)

unfoldable pub tree : FileSystem Tree
unfolding dir_of none_under no_file_under drop_under drop_folders contains
tree = record {
  mkdir_all = λ p t. (record t { folders = p ∷ t.folders }, none);
  open_create = λ p t. (
    record t { files = insert bytes_discrete p (or_empty (find bytes_discrete p t.files)) t.files },
    none,
  );
  write = λ p c t. (
    record t {
      files =
          insert bytes_discrete p (c ++ drop (length c) (or_empty (find bytes_discrete p t.files)))
            t.files;
    },
    none,
  );
  sync = λ p t. none;
  read_file = λ p t. find bytes_discrete p t.files;
  stat_mtime = λ p t. elim (find bytes_discrete p t.files) [ none ↦ none | some b ↦ some 9 ];
  remove = λ p t.
      if contains (dir_of p) t.folders
      then remove_at p (find bytes_discrete p t.files) t
      else (t, false);
  remove_all = λ p t.
      if contains p t.folders
      then record { folders = drop_folders p t.folders; files = drop_under p t.files }
      else record t { files = delete bytes_discrete p t.files };
  is_empty = λ p t.
      if contains p t.folders
      then some (no_file_under p t.files && none_under p t.folders)
      else empty_file (find bytes_discrete p t.files);
}

drop_under-none :
    (q : Bytes) (files : Map Bytes Bytes)
    → no_file_under q files ≡ true
    → drop_under q files ≡ files
unfolding no_file_under drop_under
drop_under-none q [] e = refl
drop_under-none q ((p, b) ∷ files) e = ground (arith, drop_under-none q files)

remove_cases :
    (q : Bytes) (t : Tree)
    → (tree.remove q t ≡ (t, false))
      ⊎ ((contains (dir_of q) t.folders ≡ true)
          × (tree.remove q t ≡ (record t { files = delete bytes_discrete q t.files }, true)))
unfolding tree
remove_cases q t = elim (Bool-cases (contains (dir_of q) t.folders)) [
  | inr nowhere ↦ inl (rw nowhere refl)
  | inl there ↦ elim (Option-cases (find bytes_discrete q t.files)) [
    | inl absent ↦ inl (rw (there, absent) refl)
    | inr (b, held) ↦ inr (there, rw (there, held) refl)
  ]
]

unfoldable pub plain_tree : Formats → Formats
unfolding dir_of
plain_tree form = record form { dir = dir_of }

either_way : {A P : Type 0} {x : A} (d : Dec P) → x ≡ ite d x x
either_way (yes p) = refl
either_way (no n) = refl

pub tree-Removes : (form : Formats) → Removes tree (plain_tree form)
unfolding tree plain_tree
tree-Removes form = record {
  is_folder = λ q t. contains q t.folders;
  read-remove = λ p q t. elim (remove_cases q t) [
    | inl e ↦ rw e (either_way (bytes_discrete q p))
    | inr (there, e) ↦ rw e (find-delete bytes_discrete q p t.files)
  ];
  is_folder-remove = λ q t e. elim (remove_cases q t) [
    | inl f ↦ absurd (ground (arith, e, f))
    | inr (there, f) ↦ rw f there
  ];
  read-remove_all = λ p q t known e.
      rw known (ap (find bytes_discrete p) (drop_under-none q t.files (ground (arith, e))));
}
