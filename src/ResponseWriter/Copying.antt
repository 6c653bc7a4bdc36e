-- ===== src/ResponseWriter/Copying.antt =====
-- What Copy and Handler send.
use mathlib.Core.List.{append-nil, append_assoc}
use droute.Prelude.{
  ◌≡◌, refl, sym, ap, ◌∙◌, inl, inr, none, some, List, [], ◌∷◌, ◌++◌, Bytes, bytes_discrete, arith,
  ite, if_pos, if_neg, ◌==◌, if◌then◌else◌, find, Listed, KeysDistinct, Visits, Option-cases,
}
use droute.Http.{Header, canonical, values, header_add}
use droute.Http.Headers.{values-header_add}
use droute.ResponseWriter.{
  ResponseWriter, response_writer, add_values, add_entries, send_code, send_body, copy,
}

-- Every key is in canonical form, as Add and Set leave it.
abbrev pub AllCanonical : Header → Type 0
AllCanonical h = (k : Bytes) (vs : List Bytes) → find bytes_discrete k h ≡ some vs → canonical k ≡ k

abbrev ListCanonical : Header → Type 0
ListCanonical l = (k : Bytes) (vs : List Bytes) → Listed k vs l → canonical k ≡ k

values-add_values :
    (key q : Bytes) (vs : List Bytes) (h : Header)
    → values q (add_values key vs h) ≡ values q h ++ ite (bytes_discrete (canonical key) q) vs []
unfolding add_values
values-add_values key q [] h = elim (bytes_discrete (canonical key) q) [
  | yes same ↦ rw (if_pos (bytes_discrete (canonical key) q) same) (sym (append-nil (values q h)))
  | no other ↦ rw (if_neg (bytes_discrete (canonical key) q) other) (sym (append-nil (values q h)))
]
values-add_values key q (v ∷ vs) h =
    values-add_values key q vs (header_add key v h)
    ∙ rw (values-header_add key q v h) (elim (bytes_discrete (canonical key) q) [
      | yes same ↦
          rw
            (
              if_pos (bytes_discrete (canonical key) q) same,
              if_pos (bytes_discrete (canonical key) q) same,
              if_pos (bytes_discrete (canonical key) q) same,
            )
            (append_assoc (values q h) (v ∷ []) vs)
      | no other ↦
          rw
            (
              if_neg (bytes_discrete (canonical key) q) other,
              if_neg (bytes_discrete (canonical key) q) other,
              if_neg (bytes_discrete (canonical key) q) other,
            )
            (append-nil _)
    ])

values-add_entries_absent :
    (q : Bytes) (l h : Header)
    → ListCanonical l
    → ((vs : List Bytes) → ¬ Listed q vs l)
    → values q (add_entries l h) ≡ values q h
unfolding add_entries
values-add_entries_absent q [] h c n = refl
values-add_entries_absent q ((k, vs) ∷ l) h c n =
    values-add_entries_absent q l (add_values k vs h) (λ j ws there. c j ws (inr there))
      (λ ws there. n ws (inr there))
    ∙ values-add_values k q vs h
    ∙ rw
        (if_neg (bytes_discrete (canonical k) q)
          (λ e. n vs (inl (sym (c k vs (inl (refl, refl))) ∙ e, refl))))
        (append-nil (values q h))

values-add_entries_listed :
    (q : Bytes) (vs : List Bytes) (l h : Header)
    → ListCanonical l
    → KeysDistinct l
    → Listed q vs l
    → values q (add_entries l h) ≡ values q h ++ vs
unfolding add_entries
values-add_entries_listed q vs [] h c d there = elim there [ ]
values-add_entries_listed q vs ((k, ws) ∷ l) h c (n, d) there = elim there [
  | inl (same, e) ↦
      values-add_entries_absent q l (add_values k ws h) (λ j us r. c j us (inr r))
        (λ us r. n us (rw (← same) at r))
      ∙ values-add_values k q ws h
      ∙ rw (if_pos (bytes_discrete (canonical k) q) (c k ws (inl (refl, refl)) ∙ same), e) refl
  | inr r ↦
      values-add_entries_listed q vs l (add_values k ws h) (λ j us r. c j us (inr r)) d r
      ∙ ap (λ (x : List Bytes). x ++ vs)
          (values-add_values k q ws h
            ∙ rw
                (if_neg (bytes_discrete (canonical k) q)
                  (λ e. n vs (rw (← (sym (c k ws (inl (refl, refl))) ∙ e)) at r)))
                (append-nil (values q h)))
]

module _ (visit : Header → Header) (visits : Visits bytes_discrete visit) where
  pub values-add_visited :
      (q : Bytes) (m h : Header)
      → AllCanonical m
      → values q (add_entries (visit m) h) ≡ values q h ++ values q m
  unfolding values
  values-add_visited q m h c = elim (Option-cases (find bytes_discrete q m)) [
    | inl absent ↦
        values-add_entries_absent q (visit m) h canonical_keys
          (λ vs there. let held = (visits.listed m q vs).0 there in absurd (ground arith))
        ∙ rw absent (sym (append-nil _))
    | inr (vs, held) ↦
        values-add_entries_listed q vs (visit m) h canonical_keys (visits.once m)
          ((visits.listed m q vs).1 held)
        ∙ rw held refl
  ]
    where
      canonical_keys : ListCanonical (visit m)
      canonical_keys k vs there = c k vs ((visits.listed m k vs).0 there)

  copy_result :
      (rw0 dst : ResponseWriter)
      → copy response_writer visit rw0 dst ≡ (
        record {
          header = add_entries (visit rw0.header) dst.header;
          code = if rw0.code == 0 then dst.code else rw0.code;
          buffer = dst.buffer ++ rw0.buffer;
        },
        none,
      )
  unfolding copy send_code send_body
  copy_result rw0 dst = ground arith

  -- Copied into another in-memory response, a response whose header keys are all in canonical form appends its body, adds its header values
  -- behind those that are there, sets the status unless its own is 0, and reports no error.
  pub copy_lem :
      (rw0 dst : ResponseWriter)
      → AllCanonical rw0.header
      → ((copy response_writer visit rw0 dst).1 ≡ none)
        × ((copy response_writer visit rw0 dst).0.buffer ≡ dst.buffer ++ rw0.buffer)
        × ((copy response_writer visit rw0 dst).0.code
            ≡ (if rw0.code == 0 then dst.code else rw0.code))
        × ((q : Bytes)
            → values q (copy response_writer visit rw0 dst).0.header
              ≡ values q dst.header ++ values q rw0.header)
  copy_lem rw0 dst c =
      let e = copy_result rw0 dst in
      (cc e, rw e refl, rw e refl, λ q. rw e (values-add_visited q rw0.header dst.header c))
