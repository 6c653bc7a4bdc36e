-- ===== src/Sessions/Memory/Members.antt =====
-- Membership in the order of the sessions, for keys that change.
use droute.Prelude.{ℕ, ◌<◌, ◌≡◌, ◌≢◌, refl, sym, ◌⊎◌, inl, inr, true, false, List, [], ◌∷◌, arith}
use droute.Sessions.Ordered.Sorted.{AllAbove, IsSorted, has_key, ordered_insert, ordered_delete}

abbrev pub Mem : ℕ → List ℕ → Type 0
Mem p [] = ⊥
Mem p (a ∷ o) = (a ≡ p) ⊎ Mem p o

AllAbove-Mem : (key : ℕ → ℕ) (k q : ℕ) (o : List ℕ) → AllAbove key k o → Mem q o → k < key q
AllAbove-Mem key k q [] above h = elim h [ ]
AllAbove-Mem key k q (a ∷ o) (lt, above) (inl here) = ground arith
AllAbove-Mem key k q (a ∷ o) (lt, above) (inr later) = AllAbove-Mem key k q o above later

pub insert-Mem :
    (key : ℕ → ℕ) (a q : ℕ) (o : List ℕ) → Mem q (ordered_insert key a o) → (a ≡ q) ⊎ Mem q o
unfolding ordered_insert
insert-Mem key a q [] h = h
insert-Mem key a q (b ∷ o) h = ground (arith, insert-Mem key a q o)

pub Mem-insert : (key : ℕ → ℕ) (a : ℕ) (o : List ℕ) → Mem a (ordered_insert key a o)
unfolding ordered_insert
Mem-insert key a [] = inl refl
Mem-insert key a (b ∷ o) = ground (arith, Mem-insert key a o)

pub delete-Mem : (key : ℕ → ℕ) (x q : ℕ) (o : List ℕ) → Mem q (ordered_delete key x o) → Mem q o
unfolding ordered_delete
delete-Mem key x q [] h = elim h [ ]
delete-Mem key x q (b ∷ o) h = ground (arith, delete-Mem key x q o)

-- What a deletion leaves has other keys.
pub delete-other :
    (key : ℕ → ℕ) (x q : ℕ) (o : List ℕ)
    → IsSorted key o
    → Mem q (ordered_delete key x o)
    → key q ≢ x
unfolding ordered_delete
delete-other key x q [] s h = elim h [ ]
delete-other key x q (b ∷ o) (above, s) h =
    ground (arith, delete-other key x q o s, AllAbove-Mem key (key b) q o above)

pub has_key-Mem : (key : ℕ → ℕ) (q : ℕ) (o : List ℕ) → Mem q o → has_key key (key q) o ≡ true
unfolding has_key
has_key-Mem key q [] h = elim h [ ]
has_key-Mem key q (a ∷ o) h = ground (arith, has_key-Mem key q o)

AllAbove-agree :
    (key by : ℕ → ℕ) (k j : ℕ) (o : List ℕ)
    → k ≡ j
    → ((p : ℕ) → Mem p o → key p ≡ by p)
    → AllAbove key k o
    → AllAbove by j o
AllAbove-agree key by k j [] i same h = tt
AllAbove-agree key by k j (a ∷ o) i same (lt, above) =
    let e = same a (inl refl) in
    (omega arith, AllAbove-agree key by k j o i (λ p h. same p (inr h)) above)

-- An order stays sorted under keys that agree on its members.
pub IsSorted-agree :
    (key by : ℕ → ℕ) (o : List ℕ)
    → ((p : ℕ) → Mem p o → key p ≡ by p)
    → IsSorted key o
    → IsSorted by o
IsSorted-agree key by [] same s = tt
IsSorted-agree key by (a ∷ o) same (above, s) = (
  AllAbove-agree key by (key a) (by a) o (same a (inl refl)) (λ p h. same p (inr h)) above,
  IsSorted-agree key by o (λ p h. same p (inr h)) s,
)

-- A deletion by the key of one member leaves the others.
pub Mem-delete :
    (key : ℕ → ℕ) (s q : ℕ) (o : List ℕ)
    → IsSorted key o
    → Mem s o
    → Mem q o
    → q ≢ s
    → Mem q (ordered_delete key (key s) o)
unfolding ordered_delete
Mem-delete key s q [] sorted hs hq other = elim hs [ ]
Mem-delete key s q (b ∷ o) (above, sorted) hs hq other = ground (
  arith,
  Mem-delete key s q o sorted,
  AllAbove-Mem key (key b) q o above,
  AllAbove-Mem key (key b) s o above,
)

pub no_key-Mem :
    (key : ℕ → ℕ) (x : ℕ) (o : List ℕ) → has_key key x o ≡ false → (q : ℕ) → Mem q o → key q ≢ x
no_key-Mem key x o h q hq e =
    let there = has_key-Mem key q o hq in let absent = rw (sym e) at h in ground arith
