-- ===== src/Middlewares/Bucket/Progress.antt =====
-- LeekingBucket answers every request when no more come.
use droute.Prelude.{
  ℕ, suc, ◌+◌, ◌*◌, ◌≤◌, ◌<◌, ◌≡◌, ◌⊎◌, inl, inr, refl, ap, List, [], ◌∷◌, ◌++◌, length, arith,
  ◌==◌, Bool-cases,
}
use droute.Middlewares.Bucket.{
  Worker, free, serving, done_with, Bucket, Move, take_request, finish, respond, expire, discard,
  Reach,
}
use droute.Middlewares.Bucket.Accounts.{
  count, busy, length-middle, held-middle, Inv, Move-Inv, Reach-Inv,
}

pub data Moves : ℕ → Bucket → Bucket → Type 0 where
  none_left : {s : Bucket} → Moves 0 s s
  one_more : {k : ℕ} {s t u : Bucket} → Move s t → Moves k t u → Moves (suc k) s u

-- Nothing waits and every worker is free.
abbrev pub Quiet : Bucket → Type 0
Quiet s = (s.waiting ≡ []) × (s.selecting ≡ []) × (busy s.workers ≡ 0)

abbrev pub effort : Worker → ℕ
effort free = 0
effort (serving x) = 2
effort (done_with x) = 1

abbrev pub efforts : List Worker → ℕ
efforts [] = 0
efforts (w ∷ ws) = effort w + efforts ws

-- the moves that are left at most
abbrev pub work : Bucket → ℕ
work s = 4 * length s.waiting + efforts s.workers + length s.selecting

efforts-middle :
    (u : List Worker) (w : Worker) (v : List Worker)
    → efforts (u ++ w ∷ v) ≡ effort w + efforts (u ++ v)
efforts-middle [] w v = refl
efforts-middle (a ∷ u) w v = omega (arith, efforts-middle u w v)

work-Move : {s t : Bucket} → Move s t → suc (work t) ≤ work s
work-Move (take_request u v x y id e f) =
    ground
      (arith, e, f, efforts-middle u free v, efforts-middle u (serving id) v, length-middle x id y)
work-Move (finish u v id e) =
    ground (arith, e, efforts-middle u (done_with id) v, efforts-middle u (serving id) v)
work-Move (respond u v x y id e f) =
    ground (
      arith,
      e,
      f,
      efforts-middle u (done_with id) v,
      efforts-middle u free v,
      length-middle x id y,
    )
work-Move (expire x y id f) = ground (arith, f, length-middle x id y)
work-Move (discard u v x y id e f) =
    ground (arith, e, efforts-middle u (done_with id) v, efforts-middle u free v)

work-Moves : {k : ℕ} {s t : Bucket} → Moves k s t → k + work t ≤ work s
work-Moves none_left = omega arith
work-Moves (one_more m ms) = omega (arith, work-Move m, work-Moves ms)

Moves-Inv : {k : ℕ} {s t : Bucket} (size : ℕ) → Moves k s t → Inv size s → Inv size t
Moves-Inv size none_left i = i
Moves-Inv size (one_more m ms) i = Moves-Inv size ms (Move-Inv size m i)

-- a member, among the others
split_count :
    (id : ℕ) (l : List ℕ) → 0 < count id l → (x : List ℕ) × (y : List ℕ) × (l ≡ x ++ id ∷ y)
split_count id [] h = absurd (omega arith)
split_count id (a ∷ l) h = elim (Bool-cases (a == id)) [
  | inl same ↦ let e : a ≡ id = ground arith in ([], l, ap (λ b. b ∷ l) e)
  | inr other ↦ let (x, y, e) = split_count id l (ground arith) in (a ∷ x, y, ap (λ m. a ∷ m) e)
]

abbrev Busy : List Worker → Type 0
Busy ws =
    (u : List Worker) × (v : List Worker) × (id : ℕ) × ((ws ≡ u ++ serving id ∷ v)
      ⊎ (ws ≡ u ++ done_with id ∷ v))

find_busy : (ws : List Worker) → (busy ws ≡ 0) ⊎ Busy ws
find_busy [] = inl refl
find_busy (serving x ∷ ws) = inr ([], ws, x, inl refl)
find_busy (done_with x ∷ ws) = inr ([], ws, x, inr refl)
find_busy (free ∷ ws) = elim (find_busy ws) [
  | inl none_busy ↦ inl (omega (arith, none_busy))
  | inr (u, v, id, inl e) ↦ inr (free ∷ u, v, id, inl (ap (λ l. free ∷ l) e))
  | inr (u, v, id, inr e) ↦ inr (free ∷ u, v, id, inr (ap (λ l. free ∷ l) e))
]

find_free : (ws : List Worker) → busy ws ≡ 0 → 0 < length ws → (v : List Worker) × (ws ≡ free ∷ v)
find_free [] e h = absurd (omega arith)
find_free (free ∷ ws) e h = (ws, refl)
find_free (serving x ∷ ws) e h = absurd (omega arith)
find_free (done_with x ∷ ws) e h = absurd (omega arith)

progress : {s : Bucket} (size : ℕ) → 0 < size → Inv size s → Quiet s ⊎ ((t : Bucket) × Move s t)
progress {s} size h i = by_select s.selecting refl
  where
    by_queue :
        s.selecting ≡ []
        → busy s.workers ≡ 0
        → (l : List ℕ) → s.waiting ≡ l
        → Quiet s ⊎ ((t : Bucket) × Move s t)
    by_queue e idle [] f = inl (f, e, idle)
    by_queue e idle (id ∷ y) f =
        let (v, g) = find_free s.workers idle (ground (arith, i.sized)) in
        inr (_, take_request [] v [] y id g f)

    by_worker :
        s.selecting ≡ []
        → (busy s.workers ≡ 0) ⊎ Busy s.workers
        → Quiet s ⊎ ((t : Bucket) × Move s t)
    by_worker e (inl idle) = by_queue e idle s.waiting refl
    by_worker e (inr (u, v, id, inl g)) = inr (_, finish u v id g)
    by_worker e (inr (u, v, id, inr g)) =
        let (x, y, f) =
          split_count id s.draining
            (ground (arith, i.owned id, held-middle id u (done_with id) v)) in
        inr (_, discard u v x y id g f)

    by_select : (l : List ℕ) → s.selecting ≡ l → Quiet s ⊎ ((t : Bucket) × Move s t)
    by_select [] e = by_worker e (find_busy s.workers)
    by_select (id ∷ y) e = inr (_, expire [] y id e)

-- In a bucket of at least one worker, from every state that it can reach, and however its goroutines are
-- scheduled: without new requests at most `work` moves are made, and after any of them the
-- bucket is quiet, with no call that waits and every worker free, or can make a further move.
pub Reach-settles :
    {k : ℕ} {s t : Bucket} (size : ℕ)
    → 0 < size
    → Reach size s
    → Moves k s t
    → (k ≤ work s) × (Quiet t ⊎ ((u : Bucket) × Move t u))
Reach-settles size h r ms =
    (omega (arith, work-Moves ms), progress size h (Moves-Inv size ms (Reach-Inv size r)))
