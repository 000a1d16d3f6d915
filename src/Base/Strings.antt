-- ===== src/Base/Strings.antt =====
-- Python's `str` as its code points, with the size of its UTF-8 encoding.
use Prim.Native.Char.{code}
use Prim.Native.Nat.{ℕ, ◌+◌, ◌*◌, ◌≤◌}
use Prim.Native.String.{String}
use mathlib.Core.Path.{◌≡◌}
use mathlib.Core.List.{List, [], ◌∷◌, ◌++◌}
use mathlib.Core.Bool.{Bool, true, false, ◌||◌}
use mathlib.Core.Logic.{ite}
use mathlib.Core.Option.{Option}
use native.Mathlib.Decide.{ℕ_discrete}
use native.Mathlib.Omega.{arith}
use sandboxed_workspace_mcp.Base.Tests.{ltb, if◌then◌else◌}
use sandboxed_workspace_mcp.Base.Lists.{length}

abbrev pub Text : Type 0
Text = List ℕ

unfoldable pub Text-discrete : Discrete Text
unfolding ℕ_discrete
Text-discrete = hlevel ℕ_discrete

unfoldable pub Option-Text-discrete : Discrete (Option Text)
unfolding ℕ_discrete
Option-Text-discrete = hlevel ℕ_discrete

abbrev pub text : String → Text
text String.[] = []
text (String.◌∷◌ c s) = code c ∷ text s

-- `t in texts`
unfoldable pub text_in : Text → List Text → Bool
text_in t [] = false
text_in t (u ∷ us) = ite (Text-discrete u t) true false || text_in t us

-- How many bytes a code point takes.
unfoldable pub utf8_width : ℕ → ℕ
utf8_width c = if ltb c 0x80 then 1 else if ltb c 0x800 then 2 else if ltb c 0x10000 then 3 else 4

-- `len(value.encode("utf-8"))`
unfoldable pub utf8_size : Text → ℕ
utf8_size [] = 0
utf8_size (c ∷ cs) = utf8_width c + utf8_size cs

pub utf8_size-le : (t : Text) → utf8_size t ≤ 4 * length t
unfolding utf8_size utf8_width
utf8_size-le [] = omega arith
utf8_size-le (c ∷ cs) = ground (arith, utf8_size-le cs)

pub utf8_size-append : (s t : Text) → utf8_size (s ++ t) ≡ utf8_size s + utf8_size t
unfolding utf8_size
utf8_size-append [] t = omega arith
utf8_size-append (c ∷ cs) t = omega (arith, utf8_size-append cs t)
