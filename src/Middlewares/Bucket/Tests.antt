-- ===== src/Middlewares/Bucket/Tests.antt =====
-- The theorems on LeekingBucket at two requests for one worker.
use droute.Prelude.{ℕ, ◌+◌, ◌≤◌, ◌≡◌, ◌⊎◌, refl, [], ◌∷◌, length, arith}
use droute.Middlewares.Bucket.{
  Bucket, serving, done_with, Move, take_request, finish, expire, arrive, move, Reach, start, later,
}
use droute.Middlewares.Bucket.Accounts.{count, Reach-accounts}
use droute.Middlewares.Bucket.Progress.{Moves, none_left, one_more, Quiet, work, Reach-settles}

-- request 7 is served, and request 8 waits
abbrev crowded : Bucket
crowded = record {
  workers = serving 7 ∷ [];
  waiting = 8 ∷ [];
  selecting = 7 ∷ [];
  draining = [];
  arrived = 8 ∷ 7 ∷ [];
  served = [];
  refused = [];
}

crowded_reached : Reach 1 crowded
crowded_reached =
    later (later (later start (arrive 7)) (move (take_request [] [] [] [] 7 refl refl))) (arrive 8)

-- the select of 7 has run out, and its handler has returned
abbrev timed_out : Bucket
timed_out = record {
  workers = done_with 7 ∷ [];
  waiting = 8 ∷ [];
  selecting = [];
  draining = 7 ∷ [];
  arrived = 8 ∷ 7 ∷ [];
  served = [];
  refused = 7 ∷ [];
}

to_timed_out : Moves 2 crowded timed_out
to_timed_out = one_more (expire [] [] 7 refl) (one_more (finish [] [] 7 refl) none_left)

Reach-accounts_example :
    (length crowded.selecting + length crowded.draining ≤ 1)
    × ((id : ℕ)
        → count id crowded.arrived
          ≡ count id crowded.waiting
            + count id crowded.selecting
            + count id crowded.served
            + count id crowded.refused)
Reach-accounts_example = Reach-accounts 1 crowded_reached

Reach-settles_example : (2 ≤ work crowded) × (Quiet timed_out ⊎ ((u : Bucket) × Move timed_out u))
Reach-settles_example = Reach-settles 1 (omega arith) crowded_reached to_timed_out
