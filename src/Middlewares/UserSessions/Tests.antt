-- ===== src/Middlewares/UserSessions/Tests.antt =====
-- The theorem on the session handler at a concrete request.
use droute.Prelude.{ℕ, ◌≡◌, refl, Bytes, codes, find, arith, ◌+◌, ◌<◌, ◌^◌}
use droute.ResponseWriter.{ResponseWriter, new_response_writer, response_writer}
use droute.Sessions.Memory.{MemSessions, new_mem_sessions, session_count}
use droute.Sessions.Memory.Valid.{new_mem_sessions-Valid}
use droute.Middlewares.UserSessions.{mem_store, with_uuid}
use droute.Middlewares.UserSessions.Returning.{with_uuid-count}

abbrev alice : Bytes
alice = codes "a"

abbrev greet : ℕ → Bytes → Unit {0} → MemSessions × ResponseWriter → MemSessions × ResponseWriter
greet p uuid req (m, s) = (m, record s { code = 200; buffer = uuid })

abbrev with_message : Bytes → Bytes → Bytes
with_message err message = message

room : session_count alice (new_mem_sessions 100).count + 1 < 2 ^ 64
unfolding session_count find
room = omega arith

with_uuid-count_example :
    session_count alice
      (with_uuid
        (mem_store 1 2)
        response_writer
        (λ code err. err)
        with_message
        greet
        alice
        tt
        (new_mem_sessions 100, new_response_writer)).0.count
    ≡ session_count alice (new_mem_sessions 100).count
with_uuid-count_example =
    with_uuid-count 1 2 response_writer (λ code err. err) with_message greet alice alice tt
      new_response_writer (new_mem_sessions 100) (new_mem_sessions-Valid 100) (λ p u req m s. refl)
      room
