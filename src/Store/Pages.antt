-- ===== src/Store/Pages.antt =====
-- `list_events` of src/workspace_guard_mcp/execution_store.py against plain slicing.
use sandboxed_workspace_mcp.Base.{
  ℕ, zero, suc, ◌+◌, ◌≡◌, ◌≤◌, ◌<◌, refl, ap, true, some, ok, >>=-eq-ok, Text, List, [], ◌∷◌, arith,
  length, take, drop, filter, ltb, leb, if◌then◌else◌, Bool-cases, inl, inr, length-drop,
  length-take, min, subst,
}
use sandboxed_workspace_mcp.Dict.{lookup}
use sandboxed_workspace_mcp.Execution.Record.{ExecutionRecord}
use sandboxed_workspace_mcp.Execution.Event.{ExecutionEvent}
use sandboxed_workspace_mcp.Store.History.{Replay, replay, replay_step, validate_event_history}
use sandboxed_workspace_mcp.Store.Memory.{Store, max_event_page_size}
use sandboxed_workspace_mcp.Store.Queries.{ExecutionEventPage, page_of, last_sequence, list_events}
use sandboxed_workspace_mcp.Store.Append.{IsHistory, history, IsHistory-validates}
use sandboxed_workspace_mcp.Store.Invariant.{IsValid}

-- The sequence numbers count up from `n`.
abbrev pub Numbered : ℕ → List ExecutionEvent → Type 0
Numbered n [] = Unit
Numbered n (e ∷ es) = (e.sequence ≡ n) × Numbered (suc n) es

step_number :
    (n : ℕ) (h : Replay) (e : ExecutionEvent) {h' : Replay}
    → replay_step n h e ≡ ok h'
    → e.sequence ≡ n
unfolding replay_step
step_number n h e p = ground arith

replay-Numbered :
    (n : ℕ) (h : Replay) (es : List ExecutionEvent) {h' : Replay}
    → replay n h es ≡ ok h'
    → Numbered n es
unfolding replay
replay-Numbered n h [] p = tt
replay-Numbered n h (e ∷ es) p =
    let (h1, step, run) = >>=-eq-ok (replay_step n h e) (λ g. replay (suc n) g es) p in
    (step_number n h e step, replay-Numbered (suc n) h1 es run)

pub IsHistory-Numbered :
    {r : ExecutionRecord} {es : List ExecutionEvent} → IsHistory r es → Numbered 1 es
IsHistory-Numbered (history first rest one created moment ids run) = replay-Numbered 1 _ _ run

after : ℕ → List ExecutionEvent → List ExecutionEvent
after cursor = filter (λ (e : ExecutionEvent). ltb cursor e.sequence)

after_all :
    (cursor n : ℕ) (es : List ExecutionEvent) → cursor < n → Numbered n es → after cursor es ≡ es
unfolding after
after_all cursor n [] h k = refl
after_all cursor n (e ∷ es) h k = ground (arith, after_all cursor (suc n) es (omega arith) k.1)

after-drop :
    (c n : ℕ) (es : List ExecutionEvent) → Numbered (suc n) es → after (n + c) es ≡ drop c es
unfolding after
after-drop zero n es k = after_all (n + 0) (suc n) es (omega arith) k
after-drop (suc c) n [] k = refl
after-drop (suc c) n (e ∷ es) k =
    let shift : n + suc c ≡ suc n + c = omega arith in
    ground (arith, after-drop c (suc n) es k.1, shift)

-- The page that a client gets: a slice of the history from the cursor.
pub record IsSlice (es : List ExecutionEvent) (cursor limit : ℕ) (p : ExecutionEventPage)
    : Type 0 where
  pub slice : p.events ≡ take limit (drop cursor es)
  pub more : p.has_more ≡ ltb (cursor + limit) (length es)
  pub complete : p.history_complete ≡ true
  pub resumes :
      p.next_cursor ≡ (if leb (length es) cursor then cursor else min (cursor + limit) (length es))

take-take-suc {ℓ} : {A : Type ℓ} (n : ℕ) (xs : List A) → take n (take (suc n) xs) ≡ take n xs
take-take-suc zero xs = refl
take-take-suc (suc n) [] = refl
take-take-suc (suc n) (x ∷ xs) = ap (◌∷◌ x) (take-take-suc n xs)

one_more : (n : ℕ) → n + 1 ≡ suc n
one_more n = omega arith

selected :
    (cursor : ℕ) (es : List ExecutionEvent)
    → Numbered 1 es
    → filter (λ (e : ExecutionEvent). ltb cursor e.sequence) es ≡ drop cursor es
unfolding after
selected cursor es k =
    let e : 0 + cursor ≡ cursor = omega arith in
    subst (λ c. after c es ≡ drop cursor es) e (after-drop cursor 0 es k)

Numbered-drop :
    (c n : ℕ) (es : List ExecutionEvent)
    → c ≤ length es
    → Numbered (suc n) es
    → Numbered (suc (n + c)) (drop c es)
Numbered-drop zero n es h k = let e : n + 0 ≡ n = omega arith in rw e k
Numbered-drop (suc c) n [] h k = elim h [ ]
Numbered-drop (suc c) n (e ∷ es) h k =
    let shift : n + suc c ≡ suc n + c = omega arith in
    rw shift (Numbered-drop c (suc n) es (omega arith) k.1)

last-Numbered :
    (limit c : ℕ) (es : List ExecutionEvent)
    → Numbered (suc c) es
    → last_sequence c (take limit es) ≡ c + min limit (length es)
unfolding last_sequence
last-Numbered zero c es k = omega arith
last-Numbered (suc limit) c [] k = omega arith
last-Numbered (suc limit) c (e ∷ es) k =
    rw (k.0) (omega (arith, last-Numbered limit (suc c) es k.1))

slice_more :
    (cursor limit : ℕ) (es : List ExecutionEvent)
    → ltb limit (length (take (suc limit) (drop cursor es))) ≡ ltb (cursor + limit) (length es)
slice_more cursor limit es =
    ground (arith, length-take (suc limit) (drop cursor es), length-drop cursor es)

slice_next :
    (cursor limit : ℕ) (es : List ExecutionEvent)
    → Numbered 1 es
    → cursor ≤ length es
    → last_sequence cursor (take limit (drop cursor es)) ≡ min (cursor + limit) (length es)
slice_next cursor limit es k h =
    let shift : 0 + cursor ≡ cursor = omega arith in
    let numbered =
      subst (λ c. Numbered (suc c) (drop cursor es)) shift (Numbered-drop cursor 0 es h k) in
    omega (arith, last-Numbered limit cursor (drop cursor es) numbered, length-drop cursor es)

drop_all : (cursor : ℕ) (es : List ExecutionEvent) → length es ≤ cursor → drop cursor es ≡ []
drop_all zero [] h = refl
drop_all (suc cursor) [] h = refl
drop_all zero (e ∷ es) h = absurd (omega arith)
drop_all (suc cursor) (e ∷ es) h = drop_all cursor es (omega arith)

last_of_none : (cursor limit : ℕ) → last_sequence cursor (take limit []) ≡ cursor
unfolding last_sequence
last_of_none cursor zero = refl
last_of_none cursor (suc limit) = refl

slice_resumes :
    (cursor limit : ℕ) (es : List ExecutionEvent)
    → Numbered 1 es
    → last_sequence cursor (take limit (drop cursor es))
      ≡ (if leb (length es) cursor then cursor else min (cursor + limit) (length es))
slice_resumes cursor limit es k = elim (Bool-cases (leb (length es) cursor)) [
  | inl past ↦ rw past (rw (drop_all cursor es (ground arith)) (last_of_none cursor limit))
  | inr inside ↦ rw inside (slice_next cursor limit es k (ground arith))
]

page_of-IsSlice :
    (cursor limit : ℕ) (es : List ExecutionEvent)
    → Numbered 1 es
    → IsSlice es cursor limit (page_of cursor limit es true)
unfolding page_of
page_of-IsSlice cursor limit es k = record {
  slice = rw (selected cursor es k, one_more limit) (take-take-suc limit (drop cursor es));
  more = rw (selected cursor es k, one_more limit) (slice_more cursor limit es);
  complete = refl;
  resumes =
      rw (selected cursor es k, one_more limit)
        (rw take-take-suc (slice_resumes cursor limit es k));
}

paged :
    (id : Text) (cursor limit : ℕ) (s : Store) (r : ExecutionRecord) (es : List ExecutionEvent)
    → lookup id s.records ≡ some r
    → lookup id s.events ≡ some es
    → validate_event_history r es ≡ ok true
    → 1 ≤ limit
    → limit ≤ max_event_page_size
    → list_events id cursor limit s ≡ ok (page_of cursor limit es true)
unfolding list_events
paged id cursor limit s r es e f valid low high = ground arith

-- On a valid store, for a stored execution and a limit from 1 to 100, `list_events` returns the slice
-- of the stored history behind the cursor, says truly whether there is more and that the history is
-- complete, and gives the cursor at which to go on.
pub list_events-IsSlice :
    (s : Store) (id : Text) (r : ExecutionRecord) (cursor limit : ℕ)
    → IsValid s
    → lookup id s.records ≡ some r
    → 1 ≤ limit
    → limit ≤ max_event_page_size
    → (es : List ExecutionEvent) × (p : ExecutionEventPage) × (lookup id s.events ≡ some es)
      × (list_events id cursor limit s ≡ ok p)
      × IsSlice es cursor limit p
list_events-IsSlice s id r cursor limit v e low high =
    let held = v.stored id r e in
    (
      held.events,
      page_of cursor limit held.events true,
      held.has_events,
      paged id cursor limit s r held.events e held.has_events
          (IsHistory-validates r held.valid_history) low high,
      page_of-IsSlice cursor limit held.events (IsHistory-Numbered held.valid_history),
    )
