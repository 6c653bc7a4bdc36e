-- ===== src/Sessions/Bolt/Database.antt =====
-- What sessions/boltdb.go calls of BoltDB, which is no part of the repository: the four buckets of a
-- database, the buckets of the sessions inside bUUID, and the end of a transaction. An error of
-- BoltDB is none. `Indexes` and `Children`
-- are what its documentation says of these calls.
use droute.Prelude.{ℕ, ◌≡◌, Bool, true, Option, none, some, Bytes, bytes_discrete, ite}

-- bUUIDTimeStamp, bTimeStampUUID and bInUse
pub data BucketName : Type 0 where
  uuid_ts ts_uuid in_use : BucketName

unfoldable pub bucket_discrete : Discrete BucketName
bucket_discrete = hlevel

pub record Bolt (D : Type 0) : Type 0 where
  pub get : BucketName → Bytes → D → Option Bytes
  pub put : BucketName → Bytes → Bytes → D → Option D
  pub remove : BucketName → Bytes → D → Option D
  -- CreateBucketIfNotExists, CreateBucket and DeleteBucket for one of the three
  pub make_bucket : BucketName → D → Option D
  pub create_bucket : BucketName → D → Option D
  pub drop_bucket : BucketName → D → Option D
  -- the end of Update: the database as it is kept
  pub commit : D → Option D
  -- the bucket bUUID, and the buckets of the sessions inside it
  pub has_root : D → Bool
  pub make_root : D → Option D
  pub has_child : Bytes → D → Bool
  pub make_child : Bytes → D → Option D
  pub drop_child : Bytes → D → Option D
  pub child_get : Bytes → Bytes → D → Option Bytes
  pub child_put : Bytes → Bytes → Bytes → D → Option D
  pub child_remove : Bytes → Bytes → D → Option D
  -- Stats().KeyN
  pub key_count : Bytes → D → ℕ

module _ {D : Type 0} (bolt : Bolt D) where
  open bolt use {
    get, put, remove, make_bucket, create_bucket, drop_bucket, commit, has_root, make_root,
    has_child, make_child, drop_child, child_get, child_put, child_remove, key_count,
  }

  -- The three buckets of keys hold what was put into them.
  pub record Indexes : Type 0 where
    pub get-put :
        (n m : BucketName) (k j v : Bytes) (d d' : D)
        → put n k v d ≡ some d'
        → get m j d'
          ≡ ite (bucket_discrete n m) (ite (bytes_discrete k j) (some v) (get m j d)) (get m j d)
    pub get-remove :
        (n m : BucketName) (k j : Bytes) (d d' : D)
        → remove n k d ≡ some d'
        → get m j d'
          ≡ ite (bucket_discrete n m) (ite (bytes_discrete k j) none (get m j d)) (get m j d)
    -- Delete fails in a read-only transaction only.
    pub removed : (n : BucketName) (k : Bytes) (d : D) → (d' : D) × (remove n k d ≡ some d')
    pub get-commit :
        (m : BucketName) (j : Bytes) (d d' : D) → commit d ≡ some d' → get m j d' ≡ get m j d
    pub get-make_bucket :
        (n m : BucketName) (j : Bytes) (d d' : D)
        → make_bucket n d ≡ some d'
        → get m j d' ≡ get m j d
    pub get-create_bucket :
        (n m : BucketName) (j : Bytes) (d d' : D)
        → create_bucket n d ≡ some d'
        → get m j d' ≡ ite (bucket_discrete n m) none (get m j d)
    pub get-drop_bucket :
        (n m : BucketName) (j : Bytes) (d d' : D)
        → drop_bucket n d ≡ some d'
        → get m j d' ≡ ite (bucket_discrete n m) none (get m j d)
    pub get-make_root :
        (m : BucketName) (j : Bytes) (d d' : D) → make_root d ≡ some d' → get m j d' ≡ get m j d
    pub get-make_child :
        (m : BucketName) (u j : Bytes) (d d' : D)
        → make_child u d ≡ some d'
        → get m j d' ≡ get m j d
    pub get-drop_child :
        (m : BucketName) (u j : Bytes) (d d' : D)
        → drop_child u d ≡ some d'
        → get m j d' ≡ get m j d

  -- The buckets of the sessions hold what was put into them; only a bucket that is there holds
  -- anything; one that counts no key, when the transaction has only removed a key from it, is empty.
  pub record Children : Type 0 where
    pub child_get-child_put :
        (u w k j v : Bytes) (d d' : D)
        → child_put u k v d ≡ some d'
        → child_get w j d'
          ≡ ite
              (bytes_discrete u w)
              (ite (bytes_discrete k j) (some v) (child_get w j d))
              (child_get w j d)
    pub child_get-child_remove :
        (u w k j : Bytes) (d d' : D)
        → child_remove u k d ≡ some d'
        → child_get w j d'
          ≡ ite
              (bytes_discrete u w)
              (ite (bytes_discrete k j) none (child_get w j d))
              (child_get w j d)
    pub child_get-make_child :
        (u w j : Bytes) (d d' : D) → make_child u d ≡ some d' → child_get w j d' ≡ child_get w j d
    pub child_get-drop_child :
        (u w j : Bytes) (d d' : D)
        → drop_child u d ≡ some d'
        → child_get w j d' ≡ ite (bytes_discrete u w) none (child_get w j d)
    pub child_get-commit :
        (w j : Bytes) (d d' : D) → commit d ≡ some d' → child_get w j d' ≡ child_get w j d
    pub child_get_some :
        (u j v : Bytes) (d : D)
        → child_get u j d ≡ some v
        → (has_root d ≡ true) × (has_child u d ≡ true)
    pub emptied :
        (u k j : Bytes) (c d d' : D)
        → commit c ≡ some d
        → child_remove u k d ≡ some d'
        → key_count u d' ≡ 0
        → child_get u j d' ≡ none
