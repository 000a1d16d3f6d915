-- ===== src/Store/Prune.antt =====
-- `_prune_terminal_locked` of src/workspace_guard_mcp/execution_store.py: what it removes and what
-- it leaves.
use sandboxed_workspace_mcp.Base.{
  ℕ, drop, take, ◌≤◌, ◌≡◌, ◌≢◌, refl, sym, subst, ◌∙◌, inl, inr, true, none, some, arith, Text,
  Text-discrete, List, [], ◌∷◌, Memᴰ, All, length, ltb, Bool-cases, Option-cases,
}
use sandboxed_workspace_mcp.Dict.{lookup, lookup-erase}
use sandboxed_workspace_mcp.Execution.State.{is_terminal_state}
use sandboxed_workspace_mcp.Execution.Record.{ExecutionRecord}
use sandboxed_workspace_mcp.Store.Memory.{Store, forget, forget_terminal, prune}

-- Two stores hold the same about one execution.
pub record SameAt (j : Text) (s t : Store) : Type 0 where
  pub records : lookup j t.records ≡ lookup j s.records
  pub events : lookup j t.events ≡ lookup j s.events
  pub manifests : lookup j t.artifact_manifests ≡ lookup j s.artifact_manifests
  pub complete : lookup j t.artifact_manifest_complete ≡ lookup j s.artifact_manifest_complete

pub SameAt-refl : (j : Text) (s : Store) → SameAt j s s
SameAt-refl j s = record { records = refl; events = refl; manifests = refl; complete = refl }

pub SameAt-trans : {j : Text} {s t u : Store} → SameAt j s t → SameAt j t u → SameAt j s u
SameAt-trans h k = record {
  records = k.records ∙ h.records;
  events = k.events ∙ h.events;
  manifests = k.manifests ∙ h.manifests;
  complete = k.complete ∙ h.complete;
}

-- Every execution is either untouched, or was terminal and is gone.
pub data Shrinks (j : Text) (s t : Store) : Type 0 where
  kept : SameAt j s t → Shrinks j s t
  gone :
      (r : ExecutionRecord)
      → lookup j s.records ≡ some r
      → is_terminal_state r.state ≡ true
      → lookup j t.records ≡ none
      → Shrinks j s t

Shrinks-trans : {j : Text} {s t u : Store} → Shrinks j s t → Shrinks j t u → Shrinks j s u
Shrinks-trans (kept h) (kept k) = kept (SameAt-trans h k)
Shrinks-trans (kept h) (gone r e terminal n) = gone r (sym h.records ∙ e) terminal n
Shrinks-trans (gone r e terminal n) (kept k) = gone r e terminal (k.records ∙ n)
Shrinks-trans (gone r e terminal n) (gone r' e' terminal' n') = gone r e terminal n'

forget_ne : (id j : Text) (s : Store) → id ≢ j → SameAt j s (forget id s)
unfolding forget
forget_ne id j s apart = record {
  records = ground (arith, lookup-erase id j s.records);
  events = ground (arith, lookup-erase id j s.events);
  manifests = ground (arith, lookup-erase id j s.artifact_manifests);
  complete = ground (arith, lookup-erase id j s.artifact_manifest_complete);
}

forget_self : (id : Text) (s : Store) → lookup id (forget id s).records ≡ none
unfolding forget
forget_self id s = ground (arith, lookup-erase id id s.records)

forget_terminal-Shrinks : (id j : Text) (s : Store) → Shrinks j s (forget_terminal id s)
unfolding forget_terminal
forget_terminal-Shrinks id j s = elim (Option-cases (lookup id s.records)) [
  | inl e ↦ rw (e, forget_terminal) (kept (SameAt-refl j s))
  | inr (r, e) ↦ elim (Bool-cases (is_terminal_state r.state)) [
    | inl terminal ↦ elim (Text-discrete id j) [
      | yes p ↦
          rw (e, forget_terminal)
            (rw terminal (
              gone r (subst (λ k. lookup k s.records ≡ some r) p e) terminal
                (subst (λ k. lookup k (forget id s).records ≡ none) p (forget_self id s))))
      | no p ↦ rw (e, forget_terminal) (rw terminal (kept (forget_ne id j s p)))
    ]
    | inr live ↦ rw (e, forget_terminal) (rw live (kept (SameAt-refl j s)))
  ]
]

pub prune-Shrinks : (order : List Text) (j : Text) (s : Store) → Shrinks j s (prune order s)
unfolding prune
prune-Shrinks [] j s =
    kept (record { records = refl; events = refl; manifests = refl; complete = refl })
prune-Shrinks (id ∷ rest) j s =
    elim (Bool-cases (ltb s.max_retained_terminal_executions (length (id ∷ rest)))) [
      | inl more ↦ rw more (
          Shrinks-trans (forget_terminal-Shrinks id j s)
            (prune-Shrinks rest j (forget_terminal id s)))
      | inr done ↦
          rw done
            (kept (record { records = refl; events = refl; manifests = refl; complete = refl }))
    ]

pub max-forget_terminal :
    (id : Text) (s : Store)
    → (forget_terminal id s).max_retained_terminal_executions ≡ s.max_retained_terminal_executions
unfolding forget_terminal forget
max-forget_terminal id s = ground arith

pub max-prune :
    (order : List Text) (s : Store)
    → (prune order s).max_retained_terminal_executions ≡ s.max_retained_terminal_executions
unfolding prune
max-prune [] s = refl
max-prune (id ∷ rest) s =
    ground (arith, max-prune rest (forget_terminal id s), max-forget_terminal id s)

-- After pruning, the retention queue is no longer than the retention limit.
pub length-prune-le :
    (order : List Text) (s : Store)
    → length (prune order s).terminal_order ≤ s.max_retained_terminal_executions
unfolding prune
length-prune-le [] s = omega arith
length-prune-le (id ∷ rest) s =
    ground (arith, length-prune-le rest (forget_terminal id s), max-forget_terminal id s)

-- The queue holds each execution once, and only executions that are terminal and still stored.
abbrev pub Fresh : Text → List Text → Type 0
Fresh id ids = All (λ other. id ≢ other) ids

abbrev pub Distinct : List Text → Type 0
Distinct [] = Unit
Distinct (id ∷ ids) = Fresh id ids × Distinct ids

abbrev pub IsTerminalAt : Store → Text → Type 0
IsTerminalAt s id =
    (r : ExecutionRecord) × (lookup id s.records ≡ some r) × (is_terminal_state r.state ≡ true)

pub forget_terminal_ne : (id j : Text) (s : Store) → id ≢ j → SameAt j s (forget_terminal id s)
unfolding forget_terminal
forget_terminal_ne id j s apart = elim (Option-cases (lookup id s.records)) [
  | inl e ↦ rw (e, forget_terminal) (SameAt-refl j s)
  | inr (r, e) ↦ elim (Bool-cases (is_terminal_state r.state)) [
    | inl terminal ↦ rw (e, forget_terminal) (rw terminal (forget_ne id j s apart))
    | inr live ↦ rw (e, forget_terminal) (rw live (SameAt-refl j s))
  ]
]

IsTerminalAt-same : {j : Text} {s t : Store} → SameAt j s t → IsTerminalAt s j → IsTerminalAt t j
IsTerminalAt-same h (r, e, terminal) = (r, h.records ∙ e, terminal)

rest_terminal :
    (id : Text) (rest : List Text) (s : Store)
    → Fresh id rest
    → All (IsTerminalAt s) rest
    → All (IsTerminalAt (forget_terminal id s)) rest
rest_terminal id [] s f h = tt
rest_terminal id (j ∷ js) s f h =
    (IsTerminalAt-same (forget_terminal_ne id j s f.0) h.0, rest_terminal id js s f.1 h.1)

-- What `prune` leaves in the queue is distinct and terminal, and a terminal record that it leaves in
-- the store is still queued.
pub record IsPruned (order : List Text) (t : Store) : Type 0 where
  pub distinct : Distinct t.terminal_order
  pub terminal : All (IsTerminalAt t) t.terminal_order
  pub queued : (j : Text) → Memᴰ j order → IsTerminalAt t j → Memᴰ j t.terminal_order

gone_terminal :
    (id : Text) (s : Store) → IsTerminalAt s id → lookup id (forget_terminal id s).records ≡ none
unfolding forget_terminal
gone_terminal id s (r, e, terminal) = rw (e, forget_terminal) (rw terminal (forget_self id s))

still_gone :
    (order : List Text) (j : Text) (s : Store)
    → lookup j s.records ≡ none
    → lookup j (prune order s).records ≡ none
still_gone order j s e = elim (prune-Shrinks order j s) [
  | kept h ↦ h.records ∙ e
  | gone r e' t n ↦ n
]

not-IsTerminalAt : (j : Text) (t : Store) → lookup j t.records ≡ none → ¬ IsTerminalAt t j
not-IsTerminalAt j t e (r, e', terminal) = cc

-- Pruning a queue of distinct, stored and terminal executions leaves a queue of distinct, stored and
-- terminal executions, and each queued execution that is still stored and terminal is still queued.
pub prune-IsPruned :
    (order : List Text) (s : Store)
    → Distinct order
    → All (IsTerminalAt s) order
    → IsPruned order (prune order s)
unfolding prune
prune-IsPruned [] s d a = record { distinct = tt; terminal = tt; queued = λ j m t. m }
prune-IsPruned (id ∷ rest) s d a =
    let s' = forget_terminal id s in
    let ih = prune-IsPruned rest s' d.1 (rest_terminal id rest s d.0 a.1) in
    let erased = still_gone rest id s' (gone_terminal id s a.0) in
    elim (Bool-cases (ltb s.max_retained_terminal_executions (length (id ∷ rest)))) [
      | inl more ↦ rw more (record {
        distinct = ih.distinct;
        terminal = ih.terminal;
        queued = λ j. popped j erased ih;
      })
      | inr done ↦ rw done (record { distinct = d; terminal = a; queued = λ j m t. m })
    ]
  where
    popped :
        (j : Text) {t : Store}
        → lookup id t.records ≡ none
        → IsPruned rest t
        → Memᴰ j (id ∷ rest)
        → IsTerminalAt t j
        → Memᴰ j t.terminal_order
    popped j {t} erased ih (Memᴰ.head e) at =
        absurd (not-IsTerminalAt j t (subst (λ k. lookup k t.records ≡ none) (sym e) erased) at)
    popped j erased ih (Memᴰ.tail m) at = ih.queued j m at

-- What `prune` does with a queue: the `n` oldest executions are forgotten, and all else is as before.
pub record Forgets (n : ℕ) (order : List Text) (s t : Store) : Type 0 where
  pub queue : t.terminal_order ≡ drop n order
  pub forgotten : (j : Text) → Memᴰ j (take n order) → lookup j t.records ≡ none
  pub others : (j : Text) → ¬ Memᴰ j (take n order) → SameAt j s t
