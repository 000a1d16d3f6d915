-- ===== src/LogBuffer/Chunks.antt =====
-- What `TaskLogBuffer.read` collects of the chunks (src/workspace_guard_mcp/task_manager.py).
use sandboxed_workspace_mcp.Base.{
  ℕ, zero, suc, ◌+◌, ◌-◌, ◌≡◌, ◌≤◌, ◌<◌, refl, sym, ap, ◌∙◌, Bool, true, false, List, [], ◌∷◌, ◌++◌,
  length, take, drop, leb, ◌==◌, arith, Bool-cases, inl, inr, length-append, length-drop,
  length-take, append-nil, append_assoc, max,
}
use sandboxed_workspace_mcp.Streams.{
  Stream, tag, select, select-append, select-tag, take-append, take-tag, length-tag, drop-tag,
  drop_front, drop_within, drop_past,
}
use sandboxed_workspace_mcp.LogBuffer.{LogChunk, Collected, collect, collect_all}
use sandboxed_workspace_mcp.LogBuffer.Trim.{flat, Contiguous}

-- What the loop adds to `k` when it has the bytes `s` in front of it.
pub record IsCollected (s : Stream) (k after : Collected) : Type 0 where
  pub out : after.stdout ≡ k.stdout ++ select true (take k.remaining s)
  pub errors : after.stderr ≡ k.stderr ++ select false (take k.remaining s)
  pub moved : after.next_cursor ≡ k.next_cursor + length (take k.remaining s)

-- One chunk: the bytes from the cursor on, as many as fit.
module _ (effective : ℕ) (c : LogChunk) (k : Collected) where
  abbrev offset : ℕ
  offset = effective - c.start

  abbrev here : Stream
  here = tag c.is_stdout (drop offset c.bytes)

  here_taken : take k.remaining here ≡ tag c.is_stdout (take k.remaining (drop offset c.bytes))
  here_taken = take-tag c.is_stdout k.remaining (drop offset c.bytes)

  collect-out : (collect effective c k).stdout ≡ k.stdout ++ select true (take k.remaining here)
  unfolding collect
  collect-out = rw (here_taken, select-tag) (ground (arith, append-nil k.stdout))

  collect-errors : (collect effective c k).stderr ≡ k.stderr ++ select false (take k.remaining here)
  unfolding collect
  collect-errors = rw (here_taken, select-tag) (ground (arith, append-nil k.stderr))

  collect-remaining :
      (collect effective c k).remaining ≡ k.remaining - length (take k.remaining here)
  unfolding collect
  collect-remaining =
      rw here_taken (omega (arith, length-tag c.is_stdout (take k.remaining (drop offset c.bytes))))

  collect-next :
      (collect effective c k).next_cursor ≡ c.start + offset + length (take k.remaining here)
  unfolding collect
  collect-next =
      rw here_taken (omega (arith, length-tag c.is_stdout (take k.remaining (drop offset c.bytes))))

-- A first part taken, then the rest with what remains.
select-take-append :
    (t : Bool) (n : ℕ) (s r : Stream)
    → select t (take n (s ++ r)) ≡ select t (take n s) ++ select t (take (n - length (take n s)) r)
select-take-append t n s r =
    ap (select t)
      (take-append n s r ∙ ap (λ m. take n s ++ take m r) (omega (arith, length-take n s)))
    ∙ select-append t (take n s) (take (n - length (take n s)) r)

length-take-append :
    (n : ℕ) (s r : Stream)
    → length (take n (s ++ r)) ≡ length (take n s) + length (take (n - length (take n s)) r)
length-take-append n s r = omega (
  arith,
  length-take n (s ++ r),
  length-append {0} s r,
  length-take n s,
  length-take (n - length (take n s)) r,
)

take_nothing {ℓ} : {A : Type ℓ} (n : ℕ) → ◌≡◌ {A = List A} (take n []) []
take_nothing zero = refl
take_nothing (suc n) = refl

-- The chunks `cs` lie from `at` to `end`; the loop stands where the cursor or the first chunk is.
module _ (effective : ℕ) where
  abbrev pub ahead : ℕ → List LogChunk → Stream
  ahead at cs = drop (effective - at) (flat cs)

  skip_ahead :
      (at : ℕ) (c : LogChunk) (cs : List LogChunk)
      → c.end ≡ at + length c.bytes
      → c.end ≤ effective
      → ahead at (c ∷ cs) ≡ ahead c.end cs
  skip_ahead at c cs e h =
      drop_front (effective - at) (tag c.is_stdout c.bytes) (flat cs)
        (omega (arith, e, h, length-tag c.is_stdout c.bytes))
      ∙ ap (λ n. drop n (flat cs)) (omega (arith, e, h, length-tag c.is_stdout c.bytes))

  part_ahead :
      (at : ℕ) (c : LogChunk) (cs : List LogChunk) (k : Collected)
      → c.start ≡ at
      → c.end ≡ at + length c.bytes
      → effective < c.end
      → ahead at (c ∷ cs) ≡ here effective c k ++ ahead c.end cs
  part_ahead at c cs k s e h =
      let none_over : effective - c.end ≡ 0 = omega (arith, h) in
      let same_offset : effective - at ≡ effective - c.start = omega (arith, s) in
      drop_within (effective - at) (tag c.is_stdout c.bytes) (flat cs)
        (omega (arith, e, h, length-tag c.is_stdout c.bytes))
      ∙ (ap (λ r. r ++ flat cs)
            (drop-tag c.is_stdout (effective - at) c.bytes
              ∙ ap (λ n. tag c.is_stdout (drop n c.bytes)) same_offset)
          ∙ ap (λ n. here effective c k ++ drop n (flat cs)) (sym none_over))

  -- The first part is taken, and the loop ends or goes on.
  taken-IsCollected :
      (c : LogChunk) (k after : Collected) (r : Stream)
      → k.next_cursor ≡ c.start + (effective - c.start)
      → IsCollected r (collect effective c k) after
      → IsCollected (here effective c k ++ r) k after
  taken-IsCollected c k after r at i =
      let left = collect-remaining effective c k in
      let n = k.remaining in
      let x = here effective c k in
      record {
        out =
            i.out
            ∙ (ap (λ z. z ++ select true (take (collect effective c k).remaining r))
                  (collect-out effective c k)
                ∙ (ap (λ m. (k.stdout ++ select true (take n x)) ++ select true (take m r)) left
                    ∙ (append_assoc k.stdout (select true (take n x))
                          (select true (take (n - length (take n x)) r))
                        ∙ ap (λ z. k.stdout ++ z) (sym (select-take-append true n x r)))));
        errors =
            i.errors
            ∙ (ap (λ z. z ++ select false (take (collect effective c k).remaining r))
                  (collect-errors effective c k)
                ∙ (ap (λ m. (k.stderr ++ select false (take n x)) ++ select false (take m r)) left
                    ∙ (append_assoc k.stderr (select false (take n x))
                          (select false (take (n - length (take n x)) r))
                        ∙ ap (λ z. k.stderr ++ z) (sym (select-take-append false n x r)))));
        moved =
            (let inner = ap (λ m. length (take m r)) left in
              omega
                (arith, i.moved, collect-next effective c k, at, length-take-append n x r, inner));
      }

  ended-IsCollected : (k : Collected) (r : Stream) → k.remaining ≡ 0 → IsCollected r k k
  unfolding select
  ended-IsCollected k r h = record {
    out = rw h (sym (append-nil k.stdout));
    errors = rw h (sym (append-nil k.stderr));
    moved = rw h (omega arith);
  }

  empty-IsCollected : (k : Collected) → IsCollected [] k k
  unfolding select
  empty-IsCollected k = record {
    out = rw (take_nothing k.remaining) (sym (append-nil k.stdout));
    errors = rw (take_nothing k.remaining) (sym (append-nil k.stderr));
    moved = rw (take_nothing k.remaining) (omega arith);
  }

  -- A chunk that leaves room was taken to its end.
  whole_chunk :
      (at : ℕ) (c : LogChunk) (k : Collected)
      → c.start ≡ at
      → c.end ≡ at + length c.bytes
      → effective < c.end
      → ((collect effective c k).remaining == 0) ≡ false
      → (collect effective c k).next_cursor ≡ max effective c.end
  whole_chunk at c k s e inside more =
      let left = collect-remaining effective c k in
      let some_left : 0 < (collect effective c k).remaining = ground arith in
      let x = here effective c k in
      omega (
        arith,
        collect-next effective c k,
        left,
        some_left,
        length-take k.remaining x,
        s,
        e,
        inside,
        length-tag c.is_stdout (drop (offset effective c k) c.bytes),
        length-drop (offset effective c k) c.bytes,
      )

  pub collect_all-IsCollected :
      (at end : ℕ) (cs : List LogChunk) (k : Collected)
      → Contiguous at cs end
      → k.next_cursor ≡ max effective at
      → IsCollected (ahead at cs) k (collect_all effective cs k)
  unfolding collect_all
  collect_all-IsCollected at end [] k h n =
      rw (drop_past (effective - at) (flat []) (omega arith)) (empty-IsCollected k)
  collect_all-IsCollected at end (c ∷ cs) k h n = elim (Bool-cases (leb c.end effective)) [
    | inl past ↦ rw past (
        rw (skip_ahead at c cs h.1 (ground arith))
          (collect_all-IsCollected c.end end cs k h.2 (ground (arith, n, h.1))))
    | inr inside ↦ rw inside (
        rw (part_ahead at c cs k h.0 h.1 (ground arith))
          (elim (Bool-cases ((collect effective c k).remaining == 0)) [
            | inl done ↦ rw done (
                taken-IsCollected c k (collect effective c k) _ (omega (arith, n, h.0))
                  (ended-IsCollected _ _ (ground arith)))
            | inr more ↦ rw more (
                taken-IsCollected c k _ _ (omega (arith, n, h.0)) (
                  collect_all-IsCollected c.end end cs _ h.2
                    (whole_chunk at c k h.0 h.1 (ground arith) more)))
          ]))
  ]
