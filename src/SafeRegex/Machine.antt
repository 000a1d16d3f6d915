-- ===== src/SafeRegex/Machine.antt =====
-- `_State`, `SafeRegex._closure` and the general search of `SafeRegex.search`
-- (src/workspace_guard_mcp/safe_regex.py). The children say what the search looks for.
--
-- A state's value is an argument of its kind. A set of indices is a list, in whatever order the set
-- is iterated; the stack `pending` has its top in front. `fold` is `str.casefold` where case is
-- ignored, and `stops p` says whether `should_stop` answers true at position `p`.
pub mod Closure
pub mod Reached
pub mod Leading
pub mod Runs
pub mod Steps
pub mod Positions
pub mod Search
use sandboxed_workspace_mcp.Base.{
  ℕ, zero, suc, ◌+◌, ◌*◌, ◌%◌, Bool, true, false, ◌&&◌, ◌||◌, Option, none, some, Text,
  Text-discrete, List, [], ◌∷◌, ite, ◌==◌, if◌then◌else◌, Result, ok, err, ◌>>=◌, length,
}
use sandboxed_workspace_mcp.SafeRegex.CharacterSet.{CharacterSet, matches}

pub data RegexError : Type 0 where
  safe_regex_error : RegexError
  index_error : RegexError
  assertion_error : RegexError
  recursion_error : RegexError
  unicode_error : RegexError
  out_of_fuel : RegexError

pub data Kind : Type 0 where
  literal : Text → Kind
  class : CharacterSet → Kind
  any : Kind
  start : Kind
  end : Kind
  jump : Kind
  split : Kind
  match : Kind

pub record State : Type 0 where
  pub kind : Kind
  pub out : Option ℕ
  pub out1 : Option ℕ

-- `self._states[index]`
unfoldable pub state_at : List State → ℕ → Result RegexError State
state_at [] index = err index_error
state_at (s ∷ states) zero = ok s
state_at (s ∷ states) (suc index) = state_at states index

unfoldable pub index_in : ℕ → List ℕ → Bool
index_in i [] = false
index_in i (j ∷ js) = i == j || index_in i js

-- The locals of the closure's loop.
pub record Walk : Type 0 where
  pub pending : List ℕ
  pub seen : List ℕ
  pub active : List ℕ

-- `if out is not None: pending.append(out)`
unfoldable pub pushed : Option ℕ → List ℕ → List ℕ
pushed none pending = pending
pushed (some i) pending = i ∷ pending

unfoldable pub expand : ℕ → ℕ → Kind → Option ℕ → Option ℕ → List ℕ → List ℕ
expand position len split out out1 pending = pushed out1 (pushed out pending)
expand position len jump out out1 pending = pushed out pending
expand position len start out out1 pending = if position == 0 then pushed out pending else pending
expand position len end out out1 pending = if position == len then pushed out pending else pending
expand position len (literal value) out out1 pending = pending
expand position len (class value) out out1 pending = pending
expand position len any out out1 pending = pending
expand position len match out out1 pending = pending

-- The kinds that reach `active.add(index)`.
unfoldable pub is_active : Kind → Bool
is_active split = false
is_active jump = false
is_active start = false
is_active end = false
is_active _ = true

-- One round of the closure's loop, on the index that it pops.
unfoldable pub visit : List State → ℕ → ℕ → ℕ → Walk → Result RegexError Walk
visit states position len index walk = if index_in index walk.seen then ok walk else do
  s ← state_at states index
  ok record {
    pending = expand position len s.kind s.out s.out1 walk.pending;
    seen = index ∷ walk.seen;
    active = if is_active s.kind then index ∷ walk.active else walk.active;
  }

unfoldable pub walk_on :
    ℕ → List State → ℕ → ℕ → List ℕ → List ℕ → List ℕ → Result RegexError (List ℕ)
walk_on fuel states position len [] seen active = ok active
walk_on zero states position len (i ∷ pending) seen active = err out_of_fuel
walk_on (suc fuel) states position len (i ∷ pending) seen active = do
  w ← visit states position len i record { pending = pending; seen = seen; active = active }
  walk_on fuel states position len w.pending w.seen w.active

unfoldable pub closure : List State → ℕ → ℕ → List ℕ → Result RegexError (List ℕ)
closure states position len initial =
    walk_on (length initial + 2 * length states) states position len initial [] []

unfoldable pub is_match : Kind → Bool
is_match match = true
is_match _ = false

unfoldable pub any_match : List State → List ℕ → Result RegexError Bool
any_match states [] = ok false
any_match states (i ∷ active) = do
  s ← state_at states i
  let rest = any_match states active
  if is_match s.kind then ok true else rest

unfoldable pub reads : Kind → Text → Bool
reads (literal value) candidate = ite (Text-discrete value candidate) true false
reads any candidate = true
reads (class value) candidate = matches value candidate
reads _ candidate = false

-- `assert state.out is not None` and `following.add(state.out)`
unfoldable pub follow : Option ℕ → List ℕ → Result RegexError (List ℕ)
follow none following = err assertion_error
follow (some j) following = ok (j ∷ following)

unfoldable pub advance : List State → Text → List ℕ → List ℕ → Result RegexError (List ℕ)
advance states candidate [] following = ok following
advance states candidate (i ∷ active) following = do
  s ← state_at states i
  more ← (if reads s.kind candidate then follow s.out following else ok following)
  advance states candidate active more

module _ (states : List State) (initial len : ℕ) (fold : ℕ → Text) (stops : ℕ → Bool) where
  -- The loop over the positions, on the text that is left from `position` on.
  unfoldable pub scan : ℕ → List ℕ → Text → Result RegexError Bool
  scan position active [] =
      if position % 256 == 0 && stops position then ok false else any_match states active
  scan position active (c ∷ rest) =
      let later = (do
        following ← advance states (fold c) active (initial ∷ [])
        next ← closure states (suc position) len following
        scan (suc position) next rest) in
      let found = any_match states active in
      if position % 256 == 0 && stops position
      then ok false
      else found >>= λ f. if f then ok true else later

-- `search` on a pattern that is not searched for as plain text; `initial` is `self._start`.
unfoldable pub search_states :
    List State → ℕ → (ℕ → Text) → (ℕ → Bool) → Text → Result RegexError Bool
search_states states initial fold stops text = do
  active ← closure states 0 (length text) (initial ∷ [])
  scan states initial (length text) fold stops 0 active text
