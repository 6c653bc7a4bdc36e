-- ===== src/Middlewares/Storage/Surviving.antt =====
-- What the clean-up of the storage leaves.
use droute.Prelude.{
  ℕ, ◌+◌, ◌≤◌, ◌≡◌, ◌≢◌, ◌⊎◌, refl, ◌∙◌, Bool, true, false, none, some, List, [], ◌∷◌, Bytes,
  bytes_discrete, leb, ite, arith, if◌then◌else◌, inl, inr, Bool-cases, Option-cases,
}
use droute.Middlewares.Storage.{
  FileSystem, Formats, Visited, failed, folder, file, remove_file, clean_file, clean_files,
}

-- What afero documents: Remove takes away the one file, which lay in a folder, and RemoveAll of a folder
-- that is empty takes away no file. `is_folder` says of a path that it is a folder; of an empty file IsEmpty is
-- true too, and RemoveAll takes it away.
pub record Removes {F : Type 0} (sys : FileSystem F) (form : Formats) : Type 0 where
  pub is_folder : Bytes → F → Bool
  pub read-remove :
      (p q : Bytes) (fs : F)
      → sys.read_file p (sys.remove q fs).0
        ≡ ite
            (bytes_discrete q p)
            (if (sys.remove q fs).1 then none else sys.read_file p fs)
            (sys.read_file p fs)
  pub is_folder-remove :
      (q : Bytes) (fs : F)
      → (sys.remove q fs).1 ≡ true
      → is_folder (form.dir q) (sys.remove q fs).0 ≡ true
  pub read-remove_all :
      (p q : Bytes) (fs : F)
      → is_folder q fs ≡ true
      → sys.is_empty q fs ≡ some true
      → sys.read_file p (sys.remove_all q fs) ≡ sys.read_file p fs

-- Every visit of the file finds it accessed within the time to live.
abbrev pub Fresh : ℕ → Bytes → List (ℕ × Visited) → Type 0
Fresh ttl p [] = Unit {0}
Fresh ttl p ((now, failed) ∷ vs) = Fresh ttl p vs
Fresh ttl p ((now, folder q) ∷ vs) = Fresh ttl p vs
Fresh ttl p ((now, file q none) ∷ vs) = Fresh ttl p vs
Fresh ttl p ((now, file q (some atime)) ∷ vs) = ((q ≢ p) ⊎ (now ≤ atime + ttl)) × Fresh ttl p vs

module _ {F : Type 0} (sys : FileSystem F) (form : Formats) (laws : Removes sys form) where
  open laws use {read-remove, is_folder-remove, read-remove_all}

  read-remove_file :
      (p q : Bytes) (fs : F)
      → q ≢ p
      → sys.read_file p (remove_file sys form q fs) ≡ sys.read_file p fs
  unfolding remove_file
  read-remove_file p q fs ne =
      let kept : sys.read_file p (sys.remove q fs).0 ≡ sys.read_file p fs =
        ground (arith, read-remove p q fs) in
      elim (Bool-cases (sys.remove q fs).1) [
        | inr held ↦ rw (remove_file, held) kept
        | inl gone ↦ elim (Option-cases (sys.is_empty (form.dir q) (sys.remove q fs).0)) [
          | inl unknown ↦ rw (remove_file, gone, unknown) kept
          | inr (b, known) ↦ go b known kept gone
        ]
      ]
    where
      go :
          (b : Bool)
          → sys.is_empty (form.dir q) (sys.remove q fs).0 ≡ some b
          → sys.read_file p (sys.remove q fs).0 ≡ sys.read_file p fs
          → (sys.remove q fs).1 ≡ true
          → sys.read_file p (remove_file sys form q fs) ≡ sys.read_file p fs
      go true known kept gone =
          rw (remove_file, gone, known)
            (read-remove_all p (form.dir q) (sys.remove q fs).0 (is_folder-remove q fs gone) known
              ∙ kept)
      go false known kept gone = rw (remove_file, gone, known) kept

  -- For a file system as documented: a round of the clean-up leaves the content of every file that Walk,
  -- whenever it comes to the file and gives a time of access, finds accessed within the time to live,
  -- by the clock as it is read for that visit.
  pub read-clean_files :
      (ttl : ℕ) (p : Bytes) (vs : List (ℕ × Visited)) (fs : F)
      → Fresh ttl p vs
      → sys.read_file p (clean_files sys form ttl vs fs) ≡ sys.read_file p fs
  unfolding clean_files clean_file
  read-clean_files ttl p [] fs fresh = refl
  read-clean_files ttl p ((now, failed) ∷ vs) fs fresh = read-clean_files ttl p vs fs fresh
  read-clean_files ttl p ((now, folder q) ∷ vs) fs fresh = read-clean_files ttl p vs fs fresh
  read-clean_files ttl p ((now, file q none) ∷ vs) fs fresh = read-clean_files ttl p vs fs fresh
  read-clean_files ttl p ((now, file q (some atime)) ∷ vs) fs (one, fresh) =
      read-clean_files ttl p vs (clean_file sys form ttl now (file q (some atime)) fs) fresh
      ∙ (elim (Bool-cases (leb now (atime + ttl))) [
        | inl young ↦ rw (clean_file, young) refl
        | inr old ↦ elim one [
          | inl ne ↦ rw (clean_file, old) (read-remove_file p q fs ne)
          | inr le ↦ absurd (ground arith)
        ]
      ])
