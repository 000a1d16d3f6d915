-- ===== src/Store/Invariant.antt =====
-- The invariant of `InMemoryExecutionStore`, for one record written over another.
use sandboxed_workspace_mcp.Base.{
  ◌≤◌, ◌<◌, ◌≡◌, ◌≢◌, refl, sym, subst, ap, ◌∙◌, inl, inr, Bool, true, false, some, Text,
  Text-discrete, List, [], ◌∷◌, ◌++◌, Memᴰ, All, All-append, length, Bool-cases, false≢true,
}
use sandboxed_workspace_mcp.Dict.{lookup}
use sandboxed_workspace_mcp.Execution.State.{is_terminal_state}
use sandboxed_workspace_mcp.Execution.Record.{ExecutionRecord}
use sandboxed_workspace_mcp.Execution.Event.{ExecutionEvent}
use sandboxed_workspace_mcp.Execution.Validation.{IsWellFormed}
use sandboxed_workspace_mcp.Store.Append.{IsHistory}
use sandboxed_workspace_mcp.Store.Memory.{Store, Manifest, prune, retire}
use sandboxed_workspace_mcp.Store.Prune.{
  SameAt, kept, gone, prune-Shrinks, max-prune, length-prune-le, Distinct, IsTerminalAt, IsPruned,
  prune-IsPruned,
}

-- What the store holds for the record of one execution.
pub record IsStored (j : Text) (r : ExecutionRecord) (s : Store) : Type 0 where
  pub own : r.execution_id ≡ j
  pub well_formed : IsWellFormed r
  pub events : List ExecutionEvent
  pub has_events : lookup j s.events ≡ some events
  pub valid_history : IsHistory r events
  pub manifest : Manifest
  pub has_manifest : lookup j s.artifact_manifests ≡ some manifest
  pub complete : Bool
  pub has_complete : lookup j s.artifact_manifest_complete ≡ some complete
  pub settled : complete ≡ true → is_terminal_state r.state ≡ true
  pub no_partial : complete ≡ false → manifest ≡ []

pub record IsValid (s : Store) : Type 0 where
  pub stored : (j : Text) (r : ExecutionRecord) → lookup j s.records ≡ some r → IsStored j r s
  pub queued : (j : Text) → IsTerminalAt s j → Memᴰ j s.terminal_order
  pub terminal : All (IsTerminalAt s) s.terminal_order
  pub distinct : Distinct s.terminal_order
  pub bounded : length s.terminal_order ≤ s.max_retained_terminal_executions
  pub positive : 0 < s.max_retained_terminal_executions

pub IsStored-same :
    {j : Text} {r : ExecutionRecord} {s t : Store} → SameAt j s t → IsStored j r s → IsStored j r t
IsStored-same same h = record {
  own = h.own;
  well_formed = h.well_formed;
  events = h.events;
  has_events = same.events ∙ h.has_events;
  valid_history = h.valid_history;
  manifest = h.manifest;
  has_manifest = same.manifests ∙ h.has_manifest;
  complete = h.complete;
  has_complete = same.complete ∙ h.has_complete;
  settled = h.settled;
  no_partial = h.no_partial;
}

-- `t` is `s` with a new record for `id`, before the queue is touched.
pub record IsUpdate (id : Text) (r : ExecutionRecord) (s t : Store) : Type 0 where
  pub others : (j : Text) → id ≢ j → SameAt j s t
  pub here : lookup id t.records ≡ some r
  pub stored : IsStored id r t
  pub order : t.terminal_order ≡ s.terminal_order
  pub limit : t.max_retained_terminal_executions ≡ s.max_retained_terminal_executions

Memᴰ-append_left {ℓ} :
    {A : Type ℓ} {a : A} {xs : List A} (ys : List A) → Memᴰ a xs → Memᴰ a (xs ++ ys)
Memᴰ-append_left ys (Memᴰ.head e) = Memᴰ.head e
Memᴰ-append_left ys (Memᴰ.tail m) = Memᴰ.tail (Memᴰ-append_left ys m)

Memᴰ-append_last {ℓ} : {A : Type ℓ} (a : A) (xs : List A) → Memᴰ a (xs ++ a ∷ [])
Memᴰ-append_last a [] = Memᴰ.head refl
Memᴰ-append_last a (x ∷ xs) = Memᴰ.tail (Memᴰ-append_last a xs)

Distinct-append_last :
    (id : Text) (ids : List Text) → All (λ j. j ≢ id) ids → Distinct ids → Distinct (ids ++ id ∷ [])
Distinct-append_last id [] apart d = (tt, tt)
Distinct-append_last id (j ∷ js) apart d =
    (All-append (λ k. j ≢ k) js (id ∷ []) d.0 (apart.0, tt), Distinct-append_last id js apart.1 d.1)

-- An execution that is not terminal is not queued.
pub All-apart :
    (id : Text) (s : Store)
    → ¬ IsTerminalAt s id
    → (ids : List Text) → All (IsTerminalAt s) ids
    → All (λ j. j ≢ id) ids
All-apart id s fresh [] h = tt
All-apart id s fresh (j ∷ js) h =
    ((λ p. fresh (subst (IsTerminalAt s) p h.0)), All-apart id s fresh js h.1)

module _ (id : Text) (r : ExecutionRecord) (s t : Store) (u : IsUpdate id r s t)
    (v : IsValid s) where
  IsStored-after : (j : Text) (q : ExecutionRecord) → lookup j t.records ≡ some q → IsStored j q t
  IsStored-after j q e = elim (Text-discrete id j) [
    | yes p ↦
        let same : r ≡ q = cc (u.here, e, ap (λ k. lookup k t.records) p) in
        subst (λ k. IsStored k q t) p (subst (λ x. IsStored id x t) same u.stored)
    | no p ↦ let same = u.others j p in IsStored-same same (v.stored j q (sym same.records ∙ e))
  ]

  terminal_before : (j : Text) → id ≢ j → IsTerminalAt t j → IsTerminalAt s j
  terminal_before j apart (q, e, terminal) = (q, sym (u.others j apart).records ∙ e, terminal)

  terminal_after : (j : Text) → id ≢ j → IsTerminalAt s j → IsTerminalAt t j
  terminal_after j apart (q, e, terminal) = (q, (u.others j apart).records ∙ e, terminal)

  not_live : is_terminal_state r.state ≡ false → ¬ IsTerminalAt t id
  not_live live (q, e, terminal) =
      let same : q ≡ r = cc (u.here, e) in
      false≢true
        (sym live ∙ (ap (λ (x : ExecutionRecord). is_terminal_state x.state) (sym same) ∙ terminal))

  module _ (fresh : ¬ IsTerminalAt s id) where
    apart_of : (j : Text) → IsTerminalAt s j → id ≢ j
    apart_of j at p = fresh (subst (IsTerminalAt s) (sym p) at)

    All-after : (ids : List Text) → All (IsTerminalAt s) ids → All (IsTerminalAt t) ids
    All-after [] h = tt
    All-after (j ∷ js) h = (terminal_after j (apart_of j h.0) h.0, All-after js h.1)

    pub live_after : is_terminal_state r.state ≡ false → IsValid t
    live_after live = record {
      stored = IsStored-after;
      queued = λ j at. elim (Text-discrete id j) [
        | yes p ↦ absurd (not_live live (subst (IsTerminalAt t) (sym p) at))
        | no p ↦ subst (λ ids. Memᴰ j ids) (sym u.order) (v.queued j (terminal_before j p at))
      ];
      terminal = subst (All (IsTerminalAt t)) (sym u.order) (All-after s.terminal_order v.terminal);
      distinct = subst Distinct (sym u.order) v.distinct;
      bounded = rw (u.order, u.limit) v.bounded;
      positive = subst (λ n. 0 < n) (sym u.limit) v.positive;
    }

    abbrev order_after : List Text
    order_after = t.terminal_order ++ id ∷ []

    queued_after : (j : Text) → IsTerminalAt t j → Memᴰ j order_after
    queued_after j at = elim (Text-discrete id j) [
      | yes p ↦ subst (λ k. Memᴰ k order_after) p (Memᴰ-append_last id t.terminal_order)
      | no p ↦
          Memᴰ-append_left (id ∷ [])
            (subst (λ ids. Memᴰ j ids) (sym u.order) (v.queued j (terminal_before j p at)))
    ]

    IsPruned-after : is_terminal_state r.state ≡ true → IsPruned order_after (prune order_after t)
    IsPruned-after terminal =
        prune-IsPruned order_after t
          (Distinct-append_last id t.terminal_order
            (subst (All (λ j. j ≢ id)) (sym u.order)
              (All-apart id s fresh s.terminal_order v.terminal))
            (subst Distinct (sym u.order) v.distinct))
          (All-append (IsTerminalAt t) t.terminal_order (id ∷ [])
            (subst (All (IsTerminalAt t)) (sym u.order) (All-after s.terminal_order v.terminal))
            ((r, u.here, terminal), tt))

    terminal-IsValid : is_terminal_state r.state ≡ true → IsValid (prune order_after t)
    terminal-IsValid terminal =
        let p = IsPruned-after terminal in
        record {
          stored = λ j q e. elim (prune-Shrinks order_after j t) [
            | kept same ↦ IsStored-same same (IsStored-after j q (sym same.records ∙ e))
            | gone _ _ _ n ↦ cc
          ];
          queued = λ j at. elim (prune-Shrinks order_after j t) [
            | kept same ↦ p.queued j (queued_after j (at.0, sym same.records ∙ at.1, at.2)) at
            | gone _ _ _ n ↦ cc (n, at.1)
          ];
          terminal = p.terminal;
          distinct = p.distinct;
          bounded = rw max-prune (length-prune-le order_after t);
          positive = rw (max-prune, u.limit) v.positive;
        }

    -- A record written for an execution that was not terminal keeps the invariant, whether the
    -- execution goes on or is retired.
    pub retire-IsValid : IsValid (retire id r.state t)
    unfolding retire
    retire-IsValid = elim (Bool-cases (is_terminal_state r.state)) [
      | inl terminal ↦ rw terminal (terminal-IsValid terminal)
      | inr live ↦ rw live (live_after live)
    ]
