-- ===== src/Sessions/Cleanup/Tests.antt =====
-- A clean-up at a concrete state: the session that has expired stays, and the other one goes.
use droute.Prelude.{
  ◌≡◌, refl, inr, none, some, List, [], ◌∷◌, Bytes, codes, bytes_discrete, ℕ_discrete, find, insert,
  delete, search_index, arith,
}
use droute.Sessions.Ordered.{locate, reaches, holds, slice_copy, overwrite, set_item, del_key}
use droute.Sessions.Memory.{
  MemSessions, new_mem_sessions, session_inc, session_dec, session_count, signal_waiting, new,
  give_back, Call, call_new, call_return, after_call, after_calls,
}
use droute.Sessions.Memory.Valid.{Valid, new_mem_sessions-Valid, after_calls-Valid}
use droute.Sessions.Cleanup.{
  tx_del, commit_items, iter_items, iter, del_session, expire, cleanup_sessions,
}
use droute.Sessions.Cleanup.Survival.{IsSpared, cleanup_sessions-find}

program : Unit {0}
unfolding after_calls after_call new give_back signal_waiting session_inc session_dec session_count
    find insert delete bytes_discrete set_item del_key locate reaches holds slice_copy overwrite
    search_index tx_del commit_items iter_items iter del_session expire cleanup_sessions
program = tt

abbrev alice : Bytes
alice = codes "a"

abbrev bob : Bytes
bob = codes "b"

abbrev calls : List Call
calls = call_new alice 1 ∷ call_new bob 50 ∷ call_return alice ∷ call_return bob ∷ []

state : MemSessions
state = after_calls calls (new_mem_sessions 10)

state-Valid : Valid state
unfolding state
state-Valid = after_calls-Valid calls (new_mem_sessions 10) (new_mem_sessions-Valid 10)

alice-IsSpared : IsSpared state (λ i. 20) alice 0
unfolding program state
alice-IsSpared = inr (λ i. omega arith)

alice_found : find bytes_discrete alice state.sessions ≡ some 0
unfolding program state
alice_found = refl

cleanup_sessions-find_example :
    find bytes_discrete alice (cleanup_sessions (λ tx. tx) (λ i. 20) state).0 ≡ some 0
cleanup_sessions-find_example =
    cleanup_sessions-find state (λ i. 20) (λ tx. tx) alice 0 state-Valid alice-IsSpared alice_found

-- bob's session expires at 60, after the clean-up at 20, and is deleted.
bob_deleted : find bytes_discrete bob (cleanup_sessions (λ tx. tx) (λ i. 20) state).0 ≡ none
unfolding program state ℕ_discrete
bob_deleted = refl
