-- ===== src/Middlewares/Bucket/Accounts.antt =====
-- What holds of the workers and the requests of LeekingBucket after any steps.
use droute.Prelude.{
  ℕ, zero, suc, ◌+◌, ◌≤◌, ◌≡◌, refl, sym, List, [], ◌∷◌, ◌++◌, length, arith, ◌==◌, if◌then◌else◌,
}
use droute.Middlewares.Bucket.{
  Worker, free, serving, done_with, Bucket, free_workers, new_bucket, Move, take_request, finish,
  respond, expire, discard, Step, arrive, move, Reach, start, later,
}

abbrev pub count : ℕ → List ℕ → ℕ
count id [] = 0
count id (x ∷ xs) = (if x == id then 1 else 0) + count id xs

abbrev pub holds : ℕ → Worker → ℕ
holds id free = 0
holds id (serving x) = if x == id then 1 else 0
holds id (done_with x) = if x == id then 1 else 0

-- the workers that are busy with the request
abbrev pub held : ℕ → List Worker → ℕ
held id [] = 0
held id (w ∷ ws) = holds id w + held id ws

abbrev pub is_busy : Worker → ℕ
is_busy free = 0
is_busy (serving x) = 1
is_busy (done_with x) = 1

abbrev pub busy : List Worker → ℕ
busy [] = 0
busy (w ∷ ws) = is_busy w + busy ws

pub count-middle :
    (id : ℕ) (x : List ℕ) (i : ℕ) (y : List ℕ)
    → count id (x ++ i ∷ y) ≡ (if i == id then 1 else 0) + count id (x ++ y)
count-middle id [] i y = refl
count-middle id (a ∷ x) i y = omega (arith, count-middle id x i y)

pub length-middle : (x : List ℕ) (i : ℕ) (y : List ℕ) → length (x ++ i ∷ y) ≡ suc (length (x ++ y))
length-middle [] i y = refl
length-middle (a ∷ x) i y = omega (arith, length-middle x i y)

-- a worker among the others
pub held-middle :
    (id : ℕ) (u : List Worker) (w : Worker) (v : List Worker)
    → held id (u ++ w ∷ v) ≡ holds id w + held id (u ++ v)
held-middle id [] w v = refl
held-middle id (a ∷ u) w v = omega (arith, held-middle id u w v)

pub busy-middle :
    (u : List Worker) (w : Worker) (v : List Worker) → busy (u ++ w ∷ v) ≡ is_busy w + busy (u ++ v)
busy-middle [] w v = refl
busy-middle (a ∷ u) w v = omega (arith, busy-middle u w v)

pub size-middle :
    (u : List Worker) (w : Worker) (v : List Worker) → length (u ++ w ∷ v) ≡ suc (length (u ++ v))
size-middle [] w v = refl
size-middle (a ∷ u) w v = omega (arith, size-middle u w v)

busy-le : (ws : List Worker) → busy ws ≤ length ws
busy-le [] = omega arith
busy-le (free ∷ ws) = omega (arith, busy-le ws)
busy-le (serving x ∷ ws) = omega (arith, busy-le ws)
busy-le (done_with x ∷ ws) = omega (arith, busy-le ws)

pub record Inv (size : ℕ) (s : Bucket) : Type 0 where
  pub sized : length s.workers ≡ size
  pub admitted : length s.selecting + length s.draining ≡ busy s.workers
  pub owned : (id : ℕ) → held id s.workers ≡ count id s.selecting + count id s.draining
  pub answered :
      (id : ℕ)
      → count id s.arrived
        ≡ count id s.waiting + count id s.selecting + count id s.served + count id s.refused

pub Move-Inv : {s t : Bucket} (size : ℕ) → Move s t → Inv size s → Inv size t
Move-Inv {s} size (take_request u v x y id e f) i = record {
  sized = ground (arith, i.sized, e, size-middle u free v, size-middle u (serving id) v);
  admitted = ground (arith, i.admitted, e, busy-middle u free v, busy-middle u (serving id) v);
  owned = λ j. ground (arith, i.owned j, e, held-middle j u free v, held-middle j u (serving id) v);
  answered = λ j. ground (arith, i.answered j, f, count-middle j x id y);
}
Move-Inv {s} size (finish u v id e) i = record {
  sized = ground (arith, i.sized, e, size-middle u (serving id) v, size-middle u (done_with id) v);
  admitted =
      ground (arith, i.admitted, e, busy-middle u (serving id) v, busy-middle u (done_with id) v);
  owned = λ j.
      ground
        (arith, i.owned j, e, held-middle j u (serving id) v, held-middle j u (done_with id) v);
  answered = i.answered;
}
Move-Inv {s} size (respond u v x y id e f) i = record {
  sized = ground (arith, i.sized, e, size-middle u free v, size-middle u (done_with id) v);
  admitted = ground (
    arith,
    i.admitted,
    e,
    f,
    busy-middle u free v,
    busy-middle u (done_with id) v,
    length-middle x id y,
  );
  owned = λ j. ground (
    arith,
    i.owned j,
    e,
    f,
    held-middle j u free v,
    held-middle j u (done_with id) v,
    count-middle j x id y,
  );
  answered = λ j. ground (arith, i.answered j, f, count-middle j x id y);
}
Move-Inv {s} size (expire x y id f) i = record {
  sized = i.sized;
  admitted = ground (arith, i.admitted, f, length-middle x id y);
  owned = λ j. ground (arith, i.owned j, f, count-middle j x id y);
  answered = λ j. ground (arith, i.answered j, f, count-middle j x id y);
}
Move-Inv {s} size (discard u v x y id e f) i = record {
  sized = ground (arith, i.sized, e, size-middle u free v, size-middle u (done_with id) v);
  admitted = ground (
    arith,
    i.admitted,
    e,
    f,
    busy-middle u free v,
    busy-middle u (done_with id) v,
    length-middle x id y,
  );
  owned = λ j. ground (
    arith,
    i.owned j,
    e,
    f,
    held-middle j u free v,
    held-middle j u (done_with id) v,
    count-middle j x id y,
  );
  answered = i.answered;
}

Step-Inv : {s t : Bucket} (size : ℕ) → Step s t → Inv size s → Inv size t
Step-Inv {s} size (arrive id) i = record {
  sized = i.sized;
  admitted = i.admitted;
  owned = i.owned;
  answered = λ j. ground (arith, i.answered j);
}
Step-Inv size (move m) i = Move-Inv size m i

all_free :
    (size id : ℕ)
    → (length (free_workers size) ≡ size)
      × (busy (free_workers size) ≡ 0)
      × (held id (free_workers size) ≡ 0)
all_free zero id = (refl, refl, refl)
all_free (suc n) id =
    let (a, b, c) = all_free n id in (omega arith, omega (arith, b), omega (arith, c))

new_bucket-Inv : (size : ℕ) → Inv size (new_bucket size)
new_bucket-Inv size = record {
  sized = (all_free size 0).0;
  admitted = sym (all_free size 0).1;
  owned = λ id. (all_free size id).2;
  answered = λ id. refl;
}

pub Reach-Inv : (size : ℕ) {s : Bucket} → Reach size s → Inv size s
Reach-Inv size start = new_bucket-Inv size
Reach-Inv size (later r st) = Step-Inv size st (Reach-Inv size r)

-- In every state that a bucket of this size can reach, the requests behind the queue, those whose
-- client got the timeout included, are never more than the size; and every call of ServeHTTP for a
-- request still waits, is in the select, or was answered exactly once, by the handler or with 503.
pub Reach-accounts :
    (size : ℕ) {s : Bucket}
    → Reach size s
    → (length s.selecting + length s.draining ≤ size)
      × ((id : ℕ)
          → count id s.arrived
            ≡ count id s.waiting + count id s.selecting + count id s.served + count id s.refused)
Reach-accounts size {s} r =
    let i = Reach-Inv size r in (omega (arith, i.sized, i.admitted, busy-le s.workers), i.answered)
