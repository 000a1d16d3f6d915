-- ===== src/Store/Sqlite/Selected.antt =====
-- What the statements on the tables select (src/workspace_guard_mcp/execution_store.py).
use sandboxed_workspace_mcp.Base.{
  ℕ, suc, ◌+◌, max, ◌≡◌, ◌≢◌, ◌<◌, refl, sym, ap, ◌∙◌, Bool, true, false, Text, Text-discrete, List,
  [], ◌∷◌, ◌++◌, append-nil, leb, length, filter, All, arith, Bool-cases, inl, inr, if_pos, if_neg,
}
use sandboxed_workspace_mcp.Execution.Event.{ExecutionEvent}
use sandboxed_workspace_mcp.Store.Memory.{ArtifactRecord, Manifest}
use sandboxed_workspace_mcp.Store.Pages.{Numbered}
use sandboxed_workspace_mcp.Store.Sqlite.Tables.{
  insert_by, order_by, is_event_of, events_of, by_sequence, max_sequence, next_sequence, has_event,
  is_artifact_of, artifacts_of, delete_artifacts,
}

filter-append {ℓ} :
    {A : Type ℓ} (p : A → Bool) (xs ys : List A) → filter p (xs ++ ys) ≡ filter p xs ++ filter p ys
filter-append p [] ys = refl
filter-append p (x ∷ xs) ys = elim (Bool-cases (p x)) [
  | inl yes_ ↦ rw (yes_, filter-append p xs ys) refl
  | inr no_ ↦ rw (no_, filter-append p xs ys) refl
]

max-Numbered :
    (n : ℕ) (es : List ExecutionEvent)
    → Numbered (suc n) es
    → max n (max_sequence es) ≡ n + length es
unfolding max_sequence
max-Numbered n [] h = omega arith
max-Numbered n (e ∷ es) h = let rest = max-Numbered (suc n) es h.1 in omega (arith, rest, h.0)

-- The next number is the one after the last event.
pub next_sequence-Numbered :
    (id : Text) (rows : List ExecutionEvent)
    → Numbered 1 (events_of id rows)
    → next_sequence id rows ≡ length (events_of id rows) + 1
unfolding next_sequence
next_sequence-Numbered id rows h = omega (arith, max-Numbered 0 (events_of id rows) h)

-- Numbered events stand in order.
pub order_by-Numbered :
    (n : ℕ) (es : List ExecutionEvent) → Numbered n es → order_by by_sequence es ≡ es
unfolding order_by insert_by
order_by-Numbered n [] h = refl
order_by-Numbered n (e ∷ []) h = refl
order_by-Numbered n (e ∷ f ∷ es) h =
    let first : leb e.sequence f.sequence ≡ true = ground (arith, h.0, h.1.0) in
    ap (insert_by by_sequence e) (order_by-Numbered (suc n) (f ∷ es) h.1) ∙ rw first refl

pub Numbered-append :
    (n : ℕ) (es : List ExecutionEvent) (e : ExecutionEvent)
    → Numbered n es
    → e.sequence ≡ n + length es
    → Numbered n (es ++ e ∷ [])
Numbered-append n [] e h k = (omega (arith, k), tt)
Numbered-append n (f ∷ es) e h k = (h.0, Numbered-append (suc n) es e h.1 (omega (arith, k)))

-- A number beyond those in use is free.
pub has_event-beyond :
    (id : Text) (k : ℕ) (rows : List ExecutionEvent)
    → max_sequence (events_of id rows) < k
    → has_event id k rows ≡ false
unfolding has_event events_of max_sequence
has_event-beyond id k [] h = refl
has_event-beyond id k (e ∷ rows) h = elim (Bool-cases (is_event_of id e)) [
  | inl own ↦
      let bound : max e.sequence (max_sequence (events_of id rows)) < k = rw own at h in
      let rest = has_event-beyond id k rows (omega (arith, bound)) in
      ground (arith, own, rest, bound)
  | inr other ↦ ground (arith, other, has_event-beyond id k rows (rw other at h))
]

pub events_of-append_own :
    (id : Text) (rows : List ExecutionEvent) (e : ExecutionEvent)
    → e.execution_id ≡ id
    → events_of id (rows ++ e ∷ []) ≡ events_of id rows ++ e ∷ []
unfolding events_of is_event_of
events_of-append_own id rows e own =
    filter-append (is_event_of id) rows (e ∷ [])
    ∙ rw (if_pos (Text-discrete e.execution_id id) own) refl

pub events_of-append_other :
    (id : Text) (rows : List ExecutionEvent) (e : ExecutionEvent)
    → e.execution_id ≢ id
    → events_of id (rows ++ e ∷ []) ≡ events_of id rows
unfolding events_of is_event_of
events_of-append_other id rows e other =
    filter-append (is_event_of id) rows (e ∷ [])
    ∙ (rw (if_neg (Text-discrete e.execution_id id) other) refl ∙ append-nil _)

-- The artifacts of an execution.
abbrev pub AllOf : Text → Manifest → Type 0
AllOf id = All (λ (a : ArtifactRecord). a.execution_id ≡ id)

artifacts_of-own : (id : Text) (m : Manifest) → AllOf id m → artifacts_of id m ≡ m
unfolding artifacts_of is_artifact_of
artifacts_of-own id [] own = refl
artifacts_of-own id (a ∷ m) own =
    rw (if_pos (Text-discrete a.execution_id id) own.0) (ap (◌∷◌ a) (artifacts_of-own id m own.1))

artifacts_of-other : (id j : Text) (m : Manifest) → id ≢ j → AllOf id m → artifacts_of j m ≡ []
unfolding artifacts_of is_artifact_of
artifacts_of-other id j [] apart own = refl
artifacts_of-other id j (a ∷ m) apart own =
    rw (if_neg (Text-discrete a.execution_id j) (λ e. apart (sym own.0 ∙ e)))
      (artifacts_of-other id j m apart own.1)

artifacts_of-deleted :
    (id : Text) (rows : Manifest) → artifacts_of id (delete_artifacts id rows) ≡ []
unfolding artifacts_of delete_artifacts
artifacts_of-deleted id [] = refl
artifacts_of-deleted id (a ∷ rows) = elim (Bool-cases (is_artifact_of id a)) [
  | inl own ↦ rw own (artifacts_of-deleted id rows)
  | inr other ↦ rw other (rw other (artifacts_of-deleted id rows))
]

artifacts_of-kept :
    (id j : Text) (rows : Manifest)
    → id ≢ j
    → artifacts_of j (delete_artifacts id rows) ≡ artifacts_of j rows
unfolding artifacts_of delete_artifacts is_artifact_of
artifacts_of-kept id j [] apart = refl
artifacts_of-kept id j (a ∷ rows) apart = ground (arith, artifacts_of-kept id j rows apart)

-- The rows after the old artifacts of one execution are replaced by new ones.
pub artifacts_of-replaced :
    (id : Text) (rows m : Manifest)
    → AllOf id m
    → artifacts_of id (delete_artifacts id rows ++ m) ≡ m
unfolding artifacts_of
artifacts_of-replaced id rows m own =
    filter-append (is_artifact_of id) (delete_artifacts id rows) m
    ∙ (ap (λ front. front ++ artifacts_of id m) (artifacts_of-deleted id rows)
        ∙ artifacts_of-own id m own)

pub artifacts_of-others :
    (id j : Text) (rows m : Manifest)
    → id ≢ j
    → AllOf id m
    → artifacts_of j (delete_artifacts id rows ++ m) ≡ artifacts_of j rows
unfolding artifacts_of
artifacts_of-others id j rows m apart own =
    filter-append (is_artifact_of j) (delete_artifacts id rows) m
    ∙ (ap (λ back. artifacts_of j (delete_artifacts id rows) ++ back)
          (artifacts_of-other id j m apart own)
        ∙ (append-nil _ ∙ artifacts_of-kept id j rows apart))
