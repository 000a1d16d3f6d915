-- ===== src/SafeRegex/Build/Added.antt =====
-- A machine under construction, and `_add` (src/workspace_guard_mcp/safe_regex.py).
use sandboxed_workspace_mcp.Base.{
  ℕ, zero, suc, ◌≡◌, ◌≤◌, ◌⊎◌, refl, sym, subst, Bool, true, false, ◌||◌, Option, none, some, Text,
  List, [], ◌∷◌, ◌++◌, ◌==◌, leb, Result, ok, err, ◌>>=◌, arith, Bool-cases, inl, inr, length,
  length-append, All, All-append,
}
use sandboxed_workspace_mcp.SafeRegex.Machine.{State, RegexError, safe_regex_error, state_at, reads}
use sandboxed_workspace_mcp.SafeRegex.Machine.Closure.{Below, Fits}
use sandboxed_workspace_mcp.SafeRegex.Build.{max_nfa_states, out_slot, out1_slot, Outs, add}

-- A result of which `Q` holds, or the refusal of the pattern; no other error.
abbrev pub Settles {ℓ} : {A : Type ℓ} → (A → Type 0) → Result RegexError A → Type 0
Settles Q (ok a) = Q a
Settles Q (err safe_regex_error) = Unit
Settles Q (err _) = ⊥

pub Settles-bind {ℓ κ} :
    {A : Type ℓ} {B : Type κ} (P : A → Type 0) (Q : B → Type 0) (m : Result RegexError A)
    (f : A → Result RegexError B)
    → Settles P m
    → ((a : A) → P a → Settles Q (f a))
    → Settles Q (m >>= f)
Settles-bind P Q (ok a) f h k = k a h
Settles-bind P Q (err safe_regex_error) f h k = tt
Settles-bind P Q (err e) f h k = h

pub Settles-map {ℓ} :
    {A : Type ℓ} {P Q : A → Type 0} (r : Result RegexError A)
    → Settles P r
    → ((a : A) → P a → Q a)
    → Settles Q r
Settles-map (ok a) h k = k a h
Settles-map (err safe_regex_error) h k = tt
Settles-map (err e) h k = h

pub Settles-both {ℓ} :
    {A : Type ℓ} {P Q R : A → Type 0} (r : Result RegexError A)
    → Settles P r
    → Settles Q r
    → ((a : A) → P a → Q a → R a)
    → Settles R r
Settles-both (ok a) h k both = both a h k
Settles-both (err safe_regex_error) h k both = tt
Settles-both (err e) h k both = h

-- The `out` of state `k` is among the open slots.
unfoldable pub dangles : ℕ → Outs → Bool
dangles k [] = false
dangles k ((i, out_slot) ∷ outs) = k == i || dangles k outs
dangles k ((i, out1_slot) ∷ outs) = dangles k outs

pub dangles-append :
    (k : ℕ) (front back : Outs) → dangles k (front ++ back) ≡ (dangles k front || dangles k back)
unfolding dangles
dangles-append k [] back = refl
dangles-append k ((i, out_slot) ∷ front) back = ground (arith, dangles-append k front back)
dangles-append k ((i, out1_slot) ∷ front) back = dangles-append k front back

-- Each state that reads has an `out`, unless `p` excuses it.
abbrev pub Led : (ℕ → Bool) → ℕ → State → Type 0
Led p i s =
    (candidate : Text) → reads s.kind candidate ≡ true → ((j : ℕ) × (s.out ≡ some j)) ⊎ (p i ≡ true)

abbrev pub Open : (ℕ → Bool) → List State → Type 0
Open p states = (i : ℕ) (s : State) → state_at states i ≡ ok s → Led p i s

abbrev pub Sound : (ℕ → Bool) → List State → Type 0
Sound p states =
    (length states ≤ max_nfa_states) × All (Fits (length states)) states × Open p states

pub Sound-weaken :
    (p q : ℕ → Bool) (states : List State)
    → ((k : ℕ) → p k ≡ true → q k ≡ true)
    → Sound p states
    → Sound q states
Sound-weaken p q states weaker (bounded, fit, open_at) = (
  bounded,
  fit,
  λ i s at candidate reading. elim (open_at i s at candidate reading) [
    | inl led ↦ inl led
    | inr excused ↦ inr (weaker i excused)
  ],
)

Below-le : (m n : ℕ) (o : Option ℕ) → m ≤ n → Below m o → Below n o
Below-le m n none h b = tt
Below-le m n (some i) h b = omega (arith, h, b)

Fits-le : (m n : ℕ) (states : List State) → m ≤ n → All (Fits m) states → All (Fits n) states
Fits-le m n [] h a = tt
Fits-le m n (s ∷ states) h ((b, c), a) =
    ((Below-le m n s.out h b, Below-le m n s.out1 h c), Fits-le m n states h a)

state_at-append :
    (states : List State) (s t : State) (i : ℕ)
    → state_at (states ++ s ∷ []) i ≡ ok t
    → (state_at states i ≡ ok t) ⊎ ((i ≡ length states) × (s ≡ t))
unfolding state_at
state_at-append [] s t zero h = inr (refl, (cc))
state_at-append [] s t (suc i) h = absurd cc
state_at-append (u ∷ states) s t zero h = inl h
state_at-append (u ∷ states) s t (suc i) h = elim (state_at-append states s t i h) [
  | inl old ↦ inl old
  | inr (last, same) ↦ inr (omega (arith, last), same)
]

-- A new state at the end of the list.
abbrev pub Added : (ℕ → Bool) → List State → List State × ℕ → Type 0
Added p states (more, index) =
    (index ≡ length states) × (length more ≡ suc (length states)) × Sound p more

pub add-Added :
    (p q : ℕ → Bool) (s : State) (states : List State)
    → Sound p states
    → Fits (length states) s
    → ((k : ℕ) → p k ≡ true → q k ≡ true)
    → Led q (length states) s
    → Settles (Added q states) (add s states)
unfolding add
add-Added p q s states (bounded, fit, open_at) fits weaker led =
    elim (Bool-cases (leb max_nfa_states (length states))) [
      | inl full ↦ rw full tt
      | inr room ↦
          let grown : length (states ++ s ∷ []) ≡ suc (length states) =
            omega (arith, length-append states (s ∷ [])) in
          rw room (
            refl,
            grown,
            (
              ground (arith, grown),
              All-append (Fits (length (states ++ s ∷ []))) states (s ∷ [])
                  (Fits-le (length states) _ states (omega (arith, grown)) fit)
                  (Fits-le (length states) _ (s ∷ []) (omega (arith, grown)) (fits, tt)),
              λ i t at candidate reading. elim (state_at-append states s t i at) [
                | inl old ↦ elim (open_at i t old candidate reading) [
                  | inl to ↦ inl to
                  | inr excused ↦ inr (weaker i excused)
                ]
                | inr (last, same) ↦
                    subst (Led q i) same (subst (λ i. Led q i s) (sym last) led) candidate reading
              ],
            ),
          )
    ]
