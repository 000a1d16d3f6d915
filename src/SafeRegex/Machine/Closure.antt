-- ===== src/SafeRegex/Machine/Closure.antt =====
-- `SafeRegex._closure` (src/workspace_guard_mcp/safe_regex.py): its loop ends.
use sandboxed_workspace_mcp.Base.{
  ℕ, zero, suc, ◌+◌, ◌*◌, ◌≡◌, ◌≤◌, ◌<◌, refl, subst, Bool, true, false, Option, none, some, List,
  [], ◌∷◌, ◌==◌, if◌then◌else◌, ok, arith, Bool-cases, inl, inr, length, All,
}
use sandboxed_workspace_mcp.SafeRegex.Machine.{
  Kind, split, jump, start, end, literal, class, any, match, State, state_at, index_in, pushed,
  expand, is_active, visit, walk_on, closure,
}

-- An edge leads to one of `n` states.
abbrev pub Below : ℕ → Option ℕ → Type 0
Below n none = Unit
Below n (some i) = i < n

abbrev pub Fits : ℕ → State → Type 0
Fits n s = Below n s.out × Below n s.out1

pub state_at-total :
    (states : List State) (i : ℕ) → i < length states → (s : State) × (state_at states i ≡ ok s)
unfolding state_at
state_at-total [] i h = absurd (omega (arith, h))
state_at-total (s ∷ states) zero h = (s, refl)
state_at-total (s ∷ states) (suc i) h = state_at-total states i (omega (arith, h))

pub state_at-All {ℓ} :
    (P : State → Type ℓ) (states : List State) (i : ℕ) (s : State)
    → All P states
    → state_at states i ≡ ok s
    → P s
unfolding state_at
state_at-All P [] i s a h = cc
state_at-All P (t ∷ states) zero s a h = subst P (cc) a.0
state_at-All P (t ∷ states) (suc i) s a h = state_at-All P states i s a.1 h

-- How many of the first `n` states are not seen.
unfoldable unseen : ℕ → List ℕ → ℕ
unseen zero seen = 0
unseen (suc n) seen = (if index_in n seen then 0 else 1) + unseen n seen

unseen_le : (n : ℕ) (seen : List ℕ) → unseen n seen ≤ n
unfolding unseen
unseen_le zero seen = omega arith
unseen_le (suc n) seen = ground (arith, unseen_le n seen)

unseen_above : (n i : ℕ) (seen : List ℕ) → n ≤ i → unseen n (i ∷ seen) ≡ unseen n seen
unfolding unseen index_in
unseen_above zero i seen h = refl
unseen_above (suc n) i seen h = ground (arith, unseen_above n i seen (omega (arith, h)))

unseen_marked :
    (n i : ℕ) (seen : List ℕ)
    → i < n
    → index_in i seen ≡ false
    → suc (unseen n (i ∷ seen)) ≡ unseen n seen
unfolding unseen index_in
unseen_marked zero i seen h fresh = omega (arith, h)
unseen_marked (suc n) i seen h fresh = elim (Bool-cases (n == i)) [
  | inl last ↦ grind (arith, unseen_above n i seen)
  | inr earlier ↦ grind (arith, unseen_marked n i seen)
]

pushed-All :
    (n : ℕ) (o : Option ℕ) (pending : List ℕ)
    → Below n o
    → All (λ i. i < n) pending
    → All (λ i. i < n) (pushed o pending)
unfolding pushed
pushed-All n none pending b a = a
pushed-All n (some i) pending b a = (b, a)

pushed_if-All :
    (n : ℕ) (b : Bool) (o : Option ℕ) (pending : List ℕ)
    → Below n o
    → All (λ i. i < n) pending
    → All (λ i. i < n) (if b then pushed o pending else pending)
pushed_if-All n true o pending b a = pushed-All n o pending b a
pushed_if-All n false o pending b a = a

pushed-length : (o : Option ℕ) (pending : List ℕ) → length (pushed o pending) ≤ suc (length pending)
unfolding pushed
pushed-length none pending = omega arith
pushed-length (some i) pending = omega arith

expand-All :
    (n position len : ℕ) (k : Kind) (o p : Option ℕ) (pending : List ℕ)
    → Below n o
    → Below n p
    → All (λ i. i < n) pending
    → All (λ i. i < n) (expand position len k o p pending)
unfolding expand
expand-All n position len split o p pending b c a = pushed-All n p _ c (pushed-All n o _ b a)
expand-All n position len jump o p pending b c a = pushed-All n o _ b a
expand-All n position len start o p pending b c a = pushed_if-All n (position == 0) o pending b a
expand-All n position len end o p pending b c a = pushed_if-All n (position == len) o pending b a
expand-All n position len (literal v) o p pending b c a = a
expand-All n position len (class v) o p pending b c a = a
expand-All n position len any o p pending b c a = a
expand-All n position len match o p pending b c a = a

expand-length :
    (position len : ℕ) (k : Kind) (o p : Option ℕ) (pending : List ℕ)
    → length (expand position len k o p pending) ≤ 2 + length pending
unfolding expand
expand-length position len split o p pending =
    omega (arith, pushed-length p (pushed o pending), pushed-length o pending)
expand-length position len jump o p pending = omega (arith, pushed-length o pending)
expand-length position len start o p pending = ground (arith, pushed-length o pending)
expand-length position len end o p pending = ground (arith, pushed-length o pending)
expand-length position len (literal v) o p pending = omega arith
expand-length position len (class v) o p pending = omega arith
expand-length position len any o p pending = omega arith
expand-length position len match o p pending = omega arith

module _ (states : List State) (position len : ℕ) (fit : All (Fits (length states)) states) where
  -- Each round takes one index off the stack; a state that is new puts at most two on it.
  walk_on-total :
      (fuel : ℕ) (pending seen active : List ℕ)
      → All (λ i. i < length states) pending
      → length pending + 2 * unseen (length states) seen ≤ fuel
      → (out : List ℕ) × (walk_on fuel states position len pending seen active ≡ ok out)
  unfolding walk_on visit
  walk_on-total fuel [] seen active a h = (active, refl)
  walk_on-total zero (i ∷ pending) seen active a h = absurd (omega (arith, h))
  walk_on-total (suc fuel) (i ∷ pending) seen active a h = elim (Bool-cases (index_in i seen)) [
    | inl again ↦ rw again (walk_on-total fuel pending seen active a.1 (omega (arith, h)))
    | inr fresh ↦
        let (s, found) = state_at-total states i a.0 in
        let fits = state_at-All (Fits (length states)) states i s fit found in
        rw (fresh, found)
          (walk_on-total fuel (expand position len s.kind s.out s.out1 pending) (i ∷ seen)
            (if is_active s.kind then i ∷ active else active)
            (expand-All (length states) position len s.kind s.out s.out1 pending fits.0 fits.1 a.1)
            (omega (
              arith,
              h,
              expand-length position len s.kind s.out s.out1 pending,
              unseen_marked (length states) i seen a.0 fresh,
            )))
  ]

  pub closure-total :
      (initial : List ℕ)
      → All (λ i. i < length states) initial
      → (out : List ℕ) × (closure states position len initial ≡ ok out)
  unfolding closure
  closure-total initial a =
      walk_on-total _ initial [] [] a (omega (arith, unseen_le (length states) []))
