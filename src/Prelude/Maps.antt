-- ===== src/Prelude/Maps.antt =====
-- Go maps as association lists: the library's `lookup`, an assignment and a `delete`.
use mathlib.Core.Path.{◌≡◌, refl, sym, ◌∙◌}
use mathlib.Core.Logic.{ite, if_pos, if_neg, ◌↔◌, ◌⊎◌, inl, inr}
use mathlib.Core.Option.{Option, none, some}
use mathlib.Core.List.{List, [], ◌∷◌}
use native.Mathlib.Omega.{arith}

abbrev pub Map {ℓ} : Type ℓ → Type ℓ → Type ℓ
Map K V = List (K × V)

module _ {ℓ} {K V : Type ℓ} (dec : Discrete K) where
  unfoldable pub find : K → Map K V → Option V
  find k [] = none
  find k ((j, v) ∷ m) = ite (dec j k) (some v) (find k m)

  -- `m[k] = v`
  unfoldable pub insert : K → V → Map K V → Map K V
  insert k v [] = (k, v) ∷ []
  insert k v ((j, w) ∷ m) = ite (dec j k) ((j, v) ∷ m) ((j, w) ∷ insert k v m)

  -- `delete(m, k)`
  unfoldable pub delete : K → Map K V → Map K V
  delete k [] = []
  delete k ((j, w) ∷ m) = ite (dec j k) (delete k m) ((j, w) ∷ delete k m)

  pub find-insert :
      (k q : K) (v : V) (m : Map K V) → find q (insert k v m) ≡ ite (dec k q) (some v) (find q m)
  unfolding find insert
  find-insert k q v [] = refl
  find-insert k q v ((j, w) ∷ m) = ground (arith, find-insert k q v m)

  pub find-delete : (k q : K) (m : Map K V) → find q (delete k m) ≡ ite (dec k q) none (find q m)
  unfolding find delete
  find-delete k q [] = ground arith
  find-delete k q ((j, w) ∷ m) = ground (arith, find-delete k q m)

module _ {K V : Type 0} where
  -- An entry of a list of pairs.
  abbrev pub Listed : K → V → Map K V → Type 0
  Listed k v [] = ⊥
  Listed k v ((j, w) ∷ m) = ((j ≡ k) × (w ≡ v)) ⊎ Listed k v m

  -- No key stands twice.
  abbrev pub KeysDistinct : Map K V → Type 0
  KeysDistinct [] = Unit
  KeysDistinct ((k, v) ∷ m) = ((w : V) → ¬ Listed k w m) × KeysDistinct m

-- `for k, v := range m` has no fixed order. Whatever order it takes, it meets the entries of the
-- map and nothing else, and no key twice.
pub record Visits {K V : Type 0} (dec : Discrete K) (visit : Map K V → Map K V) : Type 0 where
  pub listed : (m : Map K V) (k : K) (v : V) → Listed k v (visit m) ↔ (find dec k m ≡ some v)
  pub once : (m : Map K V) → KeysDistinct (visit m)

module _ {K V : Type 0} (dec : Discrete K) where
  -- One such order: that of the list, which an assignment keeps free of repeated keys.
  unfoldable pub in_order : Map K V → Map K V
  unfolding delete
  in_order [] = []
  in_order ((k, v) ∷ m) = (k, v) ∷ delete dec k (in_order m)

  Listed-delete :
      (k q : K) (v : V) (m : Map K V) → Listed q v (delete dec k m) ↔ ((¬ (k ≡ q)) × Listed q v m)
  unfolding delete
  Listed-delete k q v [] = (λ h. absurd h, λ h. absurd h.1)
  Listed-delete k q v ((j, w) ∷ m) =
      let (to, from) = Listed-delete k q v m in
      elim (dec j k) [
        | yes same ↦ (
          λ h. let (a, b) = to (rw (if_pos (dec j k) same) at h) in (a, inr b),
          λ (n, h).
              rw (if_pos (dec j k) same)
                (elim h [ inl (e, _) ↦ absurd (n (sym same ∙ e)) | inr r ↦ from (n, r) ]),
        )
        | no other ↦ (
          λ h. elim (rw (if_neg (dec j k) other) at h) [
            | inl (e, f) ↦ (λ g. other (e ∙ sym g), inl (e, f))
            | inr r ↦ let (a, b) = to r in (a, inr b)
          ],
          λ (n, h).
              rw (if_neg (dec j k) other)
                (elim h [ inl here ↦ inl here | inr r ↦ inr (from (n, r)) ]),
        )
      ]

  KeysDistinct-delete : (k : K) (m : Map K V) → KeysDistinct m → KeysDistinct (delete dec k m)
  unfolding delete
  KeysDistinct-delete k [] d = tt
  KeysDistinct-delete k ((j, w) ∷ m) (n, d) = elim (dec j k) [
    | yes same ↦ rw (if_pos (dec j k) same) (KeysDistinct-delete k m d)
    | no other ↦
        rw (if_neg (dec j k) other)
          (λ v h. n v ((Listed-delete k j v m).0 h).1, KeysDistinct-delete k m d)
  ]

  in_order_iff : (m : Map K V) (k : K) (v : V) → Listed k v (in_order m) ↔ (find dec k m ≡ some v)
  unfolding in_order find
  in_order_iff [] k v = (λ h. absurd h, λ h. cc)
  in_order_iff ((j, w) ∷ m) k v =
      let (to, from) = in_order_iff m k v in
      (
        λ h. elim h [
          | inl (e, f) ↦ ground arith
          | inr r ↦
              let (n, there) = (Listed-delete j k v (in_order m)).0 r in ground (arith, to there)
        ],
        λ h. elim (dec j k) [
          | yes same ↦ inl (same, ground arith)
          | no other ↦ inr ((Listed-delete j k v (in_order m)).1 (other, from (ground arith)))
        ],
      )

  in_order_once : (m : Map K V) → KeysDistinct (in_order m)
  unfolding in_order
  in_order_once [] = tt
  in_order_once ((k, v) ∷ m) = (
    λ w h. ((Listed-delete k k w (in_order m)).0 h).0 refl,
    KeysDistinct-delete k (in_order m) (in_order_once m),
  )

  pub in_order-Visits : Visits dec in_order
  in_order-Visits = record { listed = in_order_iff; once = in_order_once }
