-- ===== src/Sessions/Tests.antt =====
-- The theorems on the sessions at concrete calls.
use droute.Prelude.{
  ℕ, ◌≡◌, refl, ◌⊎◌, inl, none, some, List, [], ◌∷◌, arith, Bytes, codes, bytes_discrete, find,
  insert, if◌then◌else◌, search_index,
}
use droute.Sessions.Ordered.{locate, reaches, holds, slice_copy, overwrite, set_item, del_key}
use droute.Sessions.Ordered.Sorted.{
  IsSorted, has_key, ordered_insert, ordered_delete, set_item_lem, del_key_lem,
}
use droute.Sessions.Memory.{
  new_mem_sessions, done, fail, item_found, session_inc, session_count, new, restore, Call,
  call_new, call_restore, call_delete, call_return, after_call, after_calls,
}
use droute.Sessions.Memory.Members.{Mem}
use droute.Sessions.Memory.Valid.{Valid, new_mem_sessions-Valid, after_calls-Valid}
use droute.Sessions.Memory.Keeping.{InUse, after_calls-InUse}
use droute.Sessions.Memory.Restoring.{IsFree, IsTaken, restore_cases}
use droute.Sessions.Entry.{mem_entry, new_cached_entry, cached_entry}
use droute.Sessions.Entry.Runs
use droute.Sessions.Entry.Runs.{cached_entry-replies, replies}

program : Unit {0}
unfolding after_calls after_call new restore session_inc session_count find insert bytes_discrete
    set_item del_key locate reaches holds slice_copy overwrite search_index
program = tt

abbrev key : ℕ → ℕ
key n = n

abbrev times : List ℕ
times = 10 ∷ 20 ∷ 30 ∷ []

times-IsSorted : IsSorted key times
times-IsSorted = ((omega arith, (omega arith, tt)), ((omega arith, tt), (tt, tt)))

set_item_lem_example :
    set_item key 25 times
    ≡ (if has_key key 25 times then none else some (ordered_insert key 25 times))
set_item_lem_example = set_item_lem key 25 times times-IsSorted

del_key_lem_example :
    del_key key 20 times
    ≡ (if has_key key 20 times then some (ordered_delete key 20 times) else none)
del_key_lem_example = del_key_lem key 20 times times-IsSorted

abbrev alice : Bytes
alice = codes "a"

abbrev bob : Bytes
bob = codes "b"

abbrev calls : List Call
calls =
    call_new alice 1
    ∷ call_new bob 2
    ∷ call_restore alice 3
    ∷ call_return bob
    ∷ call_delete bob
    ∷ []

after_calls-Valid_example : Valid (after_calls calls (new_mem_sessions 100))
after_calls-Valid_example =
    after_calls-Valid calls (new_mem_sessions 100) (new_mem_sessions-Valid 100)

abbrev both : List Call
both = call_new alice 1 ∷ call_new bob 2 ∷ []

both-Valid : Valid (after_calls both (new_mem_sessions 100))
both-Valid = after_calls-Valid both (new_mem_sessions 100) (new_mem_sessions-Valid 100)

alice-InUse : InUse alice 0 1 1 (after_calls both (new_mem_sessions 100))
unfolding program
alice-InUse = (refl, omega arith, omega arith)

after_calls-InUse_example : InUse alice 0 1 3 (
    after_calls
      (call_delete alice ∷ call_return bob ∷ [])
      (after_calls both (new_mem_sessions 100)))
unfolding bytes_discrete
after_calls-InUse_example =
    after_calls-InUse alice 0 1 1 (call_delete alice ∷ call_return bob ∷ [])
      (after_calls both (new_mem_sessions 100)) (omega arith) (omega arith) (tt, (ground arith, tt))
      alice-InUse

restore_cases_example :
    (IsFree (after_calls both (new_mem_sessions 100)) 0 103
      × ((restore alice 3 (after_calls both (new_mem_sessions 100))).1 ≡ done 0)
      × Mem 0 (restore alice 3 (after_calls both (new_mem_sessions 100))).0.o
      × ((restore alice 3 (after_calls both (new_mem_sessions 100))).0.last_seen 0 ≡ 103)
      × ((restore alice 3 (after_calls both (new_mem_sessions 100))).0.count
          ≡ session_inc alice (after_calls both (new_mem_sessions 100)).count))
    ⊎ (IsTaken (after_calls both (new_mem_sessions 100)) 0 103
        × ((restore alice 3 (after_calls both (new_mem_sessions 100))).1 ≡ fail item_found)
        × (find bytes_discrete alice
              (restore alice 3 (after_calls both (new_mem_sessions 100))).0.sessions
            ≡ some 0)
        × ¬ Mem 0 (restore alice 3 (after_calls both (new_mem_sessions 100))).0.o)
unfolding program
restore_cases_example =
    restore_cases (after_calls both (new_mem_sessions 100)) alice 0 3 both-Valid refl (inl refl)

-- Restored at the time at which the other session was made, a session is refused and has left the
-- order.
restore_clash :
    ((restore alice 2 (after_calls both (new_mem_sessions 100))).1 ≡ fail item_found)
    × ((restore alice 2 (after_calls both (new_mem_sessions 100))).0.o ≡ 1 ∷ [])
unfolding program
restore_clash = (refl, refl)

abbrev get_set : List (Runs.Call ℕ)
get_set =
    Runs.Call.set alice 7
    ∷ Runs.Call.get alice
    ∷ Runs.Call.get bob
    ∷ Runs.Call.get bob
    ∷ Runs.Call.del alice
    ∷ Runs.Call.get alice
    ∷ []

cached_entry-replies_example :
    replies (cached_entry mem_entry) get_set (new_cached_entry mem_entry ((bob, 5) ∷ []))
    ≡ replies mem_entry get_set ((bob, 5) ∷ [])
cached_entry-replies_example = cached_entry-replies get_set ((bob, 5) ∷ [])
