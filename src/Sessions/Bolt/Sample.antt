-- ===== src/Sessions/Bolt/Sample.antt =====
-- A database that keeps what it is told in functions: it does what BoltDB documents.
use droute.Prelude.{
  ℕ, ◌≡◌, ap, refl, sym, ◌∙◌, Bool, true, false, Option, none, some, [], ◌∷◌, Bytes, bytes_discrete,
  ite, arith, length, Map, find, insert, delete, find-insert, find-delete, inl, inr, Option-cases,
}
use droute.Sessions.Bolt.Database.{Bolt, BucketName, bucket_discrete, Indexes, Children}

pub record Sample : Type 0 where
  keys : BucketName → Bytes → Option Bytes
  kids : Bytes → Option (Map Bytes Bytes)

-- the empty database
abbrev pub new_sample : Sample
new_sample = record { keys = λ n k. none; kids = λ u. none }

abbrev change : BucketName → Bytes → Option Bytes → Sample → Sample
change n k o d = record {
  keys = λ m j. ite (bucket_discrete n m) (ite (bytes_discrete k j) o (d.keys m j)) (d.keys m j);
  kids = d.kids;
}

abbrev clear : BucketName → Sample → Sample
clear n d = record { keys = λ m j. ite (bucket_discrete n m) none (d.keys m j); kids = d.kids }

abbrev kid : Bytes → Option (Map Bytes Bytes) → Sample → Sample
kid u o d = record { keys = d.keys; kids = λ w. ite (bytes_discrete u w) o (d.kids w) }

abbrev is_there : {A : Type 0} → Option A → Bool
is_there none = false
is_there (some a) = true

abbrev count : Option (Map Bytes Bytes) → ℕ
count none = 0
count (some m) = length m

unfoldable look : Bytes → Option (Map Bytes Bytes) → Option Bytes
look j none = none
look j (some m) = find bytes_discrete j m

unfoldable pub sample_bolt : Bolt Sample
unfolding look
sample_bolt = record {
  get = λ n k d. d.keys n k;
  put = λ n k v d. some (change n k (some v) d);
  remove = λ n k d. some (change n k none d);
  make_bucket = λ n d. some d;
  create_bucket = λ n d. some (clear n d);
  drop_bucket = λ n d. some (clear n d);
  commit = λ d. some d;
  has_root = λ d. true;
  make_root = λ d. some d;
  has_child = λ u d. is_there (d.kids u);
  make_child = λ u d. elim (d.kids u) [ none ↦ some (kid u (some []) d) | some m ↦ some d ];
  drop_child = λ u d. elim (d.kids u) [ none ↦ none | some m ↦ some (kid u none d) ];
  child_get = λ u j d. look j (d.kids u);
  child_put = λ u k v d. elim (d.kids u) [
    | none ↦ none
    | some m ↦ some (kid u (some (insert bytes_discrete k v m)) d)
  ];
  child_remove = λ u k d. elim (d.kids u) [
    | none ↦ none
    | some m ↦ some (kid u (some (delete bytes_discrete k m)) d)
  ];
  key_count = λ u d. count (d.kids u);
}

some_inj : {d d' : Sample} → some d ≡ some d' → d' ≡ d
some_inj e = cc

same_keys :
    {d d' : Sample} → some d ≡ some d' → (m : BucketName) (j : Bytes) → d'.keys m j ≡ d.keys m j
same_keys e m j = ap (λ x. x.keys m j) (some_inj e)

pub sample-Indexes : Indexes sample_bolt
unfolding sample_bolt
sample-Indexes = record {
  get-put = λ n m k j v d d' e. same_keys e m j;
  get-remove = λ n m k j d d' e. same_keys e m j;
  removed = λ n k d. (change n k none d, refl);
  get-commit = λ m j d d' e. same_keys e m j;
  get-make_bucket = λ n m j d d' e. same_keys e m j;
  get-create_bucket = λ n m j d d' e. same_keys e m j;
  get-drop_bucket = λ n m j d d' e. same_keys e m j;
  get-make_root = λ m j d d' e. same_keys e m j;
  get-make_child = λ m u j d d' e. made m u j d d' e;
  get-drop_child = λ m u j d d' e. dropped m u j d d' e;
}
  where
    made :
        (m : BucketName) (u j : Bytes) (d d' : Sample)
        → sample_bolt.make_child u d ≡ some d'
        → d'.keys m j ≡ d.keys m j
    made m u j d d' e = elim (Option-cases (d.kids u)) [
      | inl none_there ↦ same_keys (rw none_there at e) m j
      | inr (x, there) ↦ same_keys (rw there at e) m j
    ]

    dropped :
        (m : BucketName) (u j : Bytes) (d d' : Sample)
        → sample_bolt.drop_child u d ≡ some d'
        → d'.keys m j ≡ d.keys m j
    dropped m u j d d' e = elim (Option-cases (d.kids u)) [
      | inl none_there ↦ absurd (ground (arith, rw none_there at e))
      | inr (x, there) ↦ same_keys (rw there at e) m j
    ]

module _ where
  open sample_bolt use {
    child_get, child_put, child_remove, make_child, drop_child, key_count, has_child, commit,
  }

  child_get-kid :
      (u w j : Bytes) (o : Option (Map Bytes Bytes)) (d : Sample)
      → child_get w j (kid u o d) ≡ ite (bytes_discrete u w) (look j o) (child_get w j d)
  unfolding sample_bolt look
  child_get-kid u w j o d = elim (bytes_discrete u w) [ yes e ↦ ground arith | no n ↦ ground arith ]

  after_kid :
      (u w j : Bytes) (o : Option (Map Bytes Bytes)) (d d' : Sample) (x : Option Bytes)
      → some (kid u o d) ≡ some d'
      → (u ≡ w → look j o ≡ x)
      → child_get w j d' ≡ ite (bytes_discrete u w) x (child_get w j d)
  after_kid u w j o d d' x e h =
      ap (λ s. child_get w j s) (some_inj e)
      ∙ child_get-kid u w j o d
      ∙ (elim (bytes_discrete u w) [ yes same ↦ ground (arith, h same) | no n ↦ ground arith ])

  put_law :
      (u w k j v : Bytes) (d d' : Sample)
      → child_put u k v d ≡ some d'
      → child_get w j d'
        ≡ ite
            (bytes_discrete u w)
            (ite (bytes_discrete k j) (some v) (child_get w j d))
            (child_get w j d)
  unfolding sample_bolt look
  put_law u w k j v d d' e = elim (Option-cases (d.kids u)) [
    | inl absent ↦ absurd (ground (arith, rw absent at e))
    | inr (m, there) ↦
        after_kid u w j (some (insert bytes_discrete k v m)) d d' _ (rw there at e)
          (λ same. find-insert bytes_discrete k j v m ∙ rw (sym same, there) refl)
  ]

  remove_law :
      (u w k j : Bytes) (d d' : Sample)
      → child_remove u k d ≡ some d'
      → child_get w j d'
        ≡ ite
            (bytes_discrete u w)
            (ite (bytes_discrete k j) none (child_get w j d))
            (child_get w j d)
  unfolding sample_bolt look
  remove_law u w k j d d' e = elim (Option-cases (d.kids u)) [
    | inl absent ↦ absurd (ground (arith, rw absent at e))
    | inr (m, there) ↦
        after_kid u w j (some (delete bytes_discrete k m)) d d' _ (rw there at e)
          (λ same. find-delete bytes_discrete k j m ∙ rw (sym same, there) refl)
  ]

  make_law :
      (u w j : Bytes) (d d' : Sample)
      → make_child u d ≡ some d'
      → child_get w j d' ≡ child_get w j d
  unfolding sample_bolt look find
  make_law u w j d d' e = elim (Option-cases (d.kids u)) [
    | inl absent ↦
        after_kid u w j (some []) d d' (child_get w j d) (rw absent at e)
          (λ same. rw (sym same, absent) refl)
        ∙ ground arith
    | inr (m, there) ↦ ap (λ s. child_get w j s) (some_inj (rw there at e))
  ]

  drop_law :
      (u w j : Bytes) (d d' : Sample)
      → drop_child u d ≡ some d'
      → child_get w j d' ≡ ite (bytes_discrete u w) none (child_get w j d)
  unfolding sample_bolt look
  drop_law u w j d d' e = elim (Option-cases (d.kids u)) [
    | inl absent ↦ absurd (ground (arith, rw absent at e))
    | inr (m, there) ↦ after_kid u w j none d d' none (rw there at e) (λ same. refl)
  ]

  there_law : (u j v : Bytes) (d : Sample) → child_get u j d ≡ some v → has_child u d ≡ true
  unfolding sample_bolt look
  there_law u j v d e = elim (Option-cases (d.kids u)) [
    | inl absent ↦ absurd (ground (arith, rw absent at e))
    | inr (m, there) ↦ rw there refl
  ]

  empty_law :
      (u k j : Bytes) (d d' : Sample)
      → child_remove u k d ≡ some d'
      → key_count u d' ≡ 0
      → child_get u j d' ≡ none
  unfolding sample_bolt look find
  empty_law u k j d d' e gone = go (d'.kids u) gone
    where
      go : (o : Option (Map Bytes Bytes)) → count o ≡ 0 → look j o ≡ none
      go none h = refl
      go (some []) h = refl
      go (some (x ∷ m)) h = absurd (omega arith)

pub sample-Children : Children sample_bolt
unfolding sample_bolt
sample-Children = record {
  child_get-child_put = put_law;
  child_get-child_remove = remove_law;
  child_get-make_child = make_law;
  child_get-drop_child = drop_law;
  child_get-commit = λ w j d d' e. ap (λ x. sample_bolt.child_get w j x) (some_inj e);
  child_get_some = λ u j v d e. (refl, there_law u j v d e);
  emptied = λ u k j c d d' kept e gone. empty_law u k j d d' e gone;
}
