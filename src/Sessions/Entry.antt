-- ===== src/Sessions/Entry.antt =====
-- sessions/memory.go and sessions/cache.go: the data of one session, and a cache in front of it.
-- A stored value has any type `V`. The lock makes each method one step.
pub mod Cached
pub mod Runs
use droute.Prelude.{Option, none, some, [], Bytes, Map, bytes_discrete, find, insert, delete}

pub data EntryError : Type 0 where
  data_not_found key_exist : EntryError

pub data Result (A : Type 0) : Type 0 where
  ok : A → Result A
  err : EntryError → Result A

-- sessions/interfaces.go: the methods of Session on a key, over a state
pub record Session (S V : Type 0) : Type 0 where
  pub get : Bytes → S → S × Result V
  pub set : Bytes → V → S → S × Result (Unit {0})
  pub del : Bytes → S → S × Result (Unit {0})

module _ {V : Type 0} where
  -- MemEntry.Get
  unfoldable pub get_entry : Bytes → Map Bytes V → Map Bytes V × Result V
  get_entry key m = elim (find bytes_discrete key m) [
    | none ↦ (m, err data_not_found)
    | some v ↦ (m, ok v)
  ]

  -- MemEntry.Set refuses a key that is there.
  unfoldable pub set_entry : Bytes → V → Map Bytes V → Map Bytes V × Result (Unit {0})
  set_entry key v m = elim (find bytes_discrete key m) [
    | none ↦ (insert bytes_discrete key v m, ok tt)
    | some _ ↦ (m, err key_exist)
  ]

  -- MemEntry.Del
  unfoldable pub del_entry : Bytes → Map Bytes V → Map Bytes V × Result (Unit {0})
  del_entry key m = elim (find bytes_discrete key m) [
    | none ↦ (m, err data_not_found)
    | some _ ↦ (delete bytes_discrete key m, ok tt)
  ]

  abbrev pub mem_entry : Session (Map Bytes V) V
  mem_entry = record { get = get_entry; set = set_entry; del = del_entry }

-- CacheEntry: the session behind it, and the values that it has seen.
pub record CacheEntry (S V : Type 0) : Type 0 where
  pub sess : S
  pub store : Map Bytes V

module _ {S V : Type 0} (session : Session S V) where
  abbrev pub new_cached_entry : S → CacheEntry S V
  new_cached_entry s = record { sess = s; store = [] }

  -- CacheEntry.Get asks the session only for a key that it has not stored, and stores the answer.
  abbrev got : Bytes → Map Bytes V → S × Result V → CacheEntry S V × Result V
  got key store (s, ok v) = (record { sess = s; store = insert bytes_discrete key v store }, ok v)
  got key store (s, err e) = (record { sess = s; store = store }, err e)

  unfoldable pub get_cached : Bytes → CacheEntry S V → CacheEntry S V × Result V
  get_cached key c = elim (find bytes_discrete key c.store) [
    | some v ↦ (c, ok v)
    | none ↦ got key c.store (session.get key c.sess)
  ]

  abbrev was_set :
      Bytes → V → Map Bytes V → S × Result (Unit {0}) → CacheEntry S V × Result (Unit {0})
  was_set key v store (s, ok u) =
      (record { sess = s; store = insert bytes_discrete key v store }, ok u)
  was_set key v store (s, err e) = (record { sess = s; store = store }, err e)

  -- CacheEntry.Set stores the value if the session took it.
  unfoldable pub set_cached : Bytes → V → CacheEntry S V → CacheEntry S V × Result (Unit {0})
  set_cached key v c = was_set key v c.store (session.set key v c.sess)

  -- CacheEntry.Del forgets the key first.
  unfoldable pub del_cached : Bytes → CacheEntry S V → CacheEntry S V × Result (Unit {0})
  del_cached key c =
      let r = session.del key c.sess in
      (record { sess = r.0; store = delete bytes_discrete key c.store }, r.1)

  abbrev pub cached_entry : Session (CacheEntry S V) V
  cached_entry = record { get = get_cached; set = set_cached; del = del_cached }
