-- ===== src/Middlewares/Bucket.antt =====
-- middlewares/bucket/bucket.go: LeekingBucket, a fixed number of workers that serve the requests. The
-- channels have no buffer, so a send and its receive are one step of both sides; what the steps of the
-- goroutines are is `Move`, and a new call of ServeHTTP is `arrive`. A request has a number.
pub mod Accounts
pub mod Progress
mod Tests
use droute.Prelude.{ℕ, zero, suc, ◌+◌, ◌≡◌, List, [], ◌∷◌, ◌++◌}

-- A worker waits for the channel fifo, runs the handler for a request, or sends on its channel resp.
pub data Worker : Type 0 where
  free : Worker
  serving done_with : ℕ → Worker

-- `waiting` are the calls of ServeHTTP at the channel fifo, `selecting` those in the select, and
-- `draining` the goroutines that wait for the answer behind a timeout. `arrived`, `served` and
-- `refused` are the calls so far, those that returned with the handler's answer, and those that
-- answered 503.
pub record Bucket : Type 0 where
  pub workers : List Worker
  pub waiting : List ℕ
  pub selecting : List ℕ
  pub draining : List ℕ
  pub arrived : List ℕ
  pub served : List ℕ
  pub refused : List ℕ

abbrev pub free_workers : ℕ → List Worker
free_workers zero = []
free_workers (suc n) = free ∷ free_workers n

-- NewBucket
abbrev pub new_bucket : ℕ → Bucket
new_bucket size = record {
  workers = free_workers size;
  waiting = [];
  selecting = [];
  draining = [];
  arrived = [];
  served = [];
  refused = [];
}

pub data Move (s : Bucket) : Bucket → Type 0 where
  -- `l.fifo <- r` and `r := <-lb.fifo`
  take_request :
      (u v : List Worker) (x y : List ℕ) (id : ℕ)
      → s.workers ≡ u ++ free ∷ v
      → s.waiting ≡ x ++ id ∷ y
      → Move s (record s {
        workers = u ++ serving id ∷ v;
        waiting = x ++ y;
        selecting = id ∷ s.selecting;
      })
  -- the return of the handler
  finish :
      (u v : List Worker) (id : ℕ)
      → s.workers ≡ u ++ serving id ∷ v
      → Move s (record s { workers = u ++ done_with id ∷ v })
  -- `r.resp <- struct{}{}` and `<-resp` in the select
  respond :
      (u v : List Worker) (x y : List ℕ) (id : ℕ)
      → s.workers ≡ u ++ done_with id ∷ v
      → s.selecting ≡ x ++ id ∷ y
      → Move s (record s { workers = u ++ free ∷ v; selecting = x ++ y; served = id ∷ s.served })
  -- the timeout of the select, and the answer 503
  expire :
      (x y : List ℕ) (id : ℕ)
      → s.selecting ≡ x ++ id ∷ y
      → Move s
          (record s { selecting = x ++ y; draining = id ∷ s.draining; refused = id ∷ s.refused })
  -- `r.resp <- struct{}{}` and `<-resp` in the goroutine that the timeout started
  discard :
      (u v : List Worker) (x y : List ℕ) (id : ℕ)
      → s.workers ≡ u ++ done_with id ∷ v
      → s.draining ≡ x ++ id ∷ y
      → Move s (record s { workers = u ++ free ∷ v; draining = x ++ y })

pub data Step (s : Bucket) : Bucket → Type 0 where
  arrive : (id : ℕ) → Step s (record s { waiting = id ∷ s.waiting; arrived = id ∷ s.arrived })
  move : {t : Bucket} → Move s t → Step s t

pub data Reach (size : ℕ) : Bucket → Type 0 where
  start : Reach size (new_bucket size)
  later : {s t : Bucket} → Reach size s → Step s t → Reach size t
