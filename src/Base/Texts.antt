-- ===== src/Base/Texts.antt =====
-- Python's texts. A `String` where whole texts are compared or built; a `Text`, the list of its code
-- points, where the program looks into one.
use Prim.Native.Nat.{ℕ}
use Prim.Native.Char.{code}
use Prim.Native.String.{String, ◌++◌ as append}
use mathlib.Core.Bool.{Bool, true, false, ◌&&◌, ◌||◌}
use mathlib.Core.List.{List, [], ◌∷◌, reverse}
use pynchy.Base.Tests.{leb, eqb, if◌then◌else◌}

-- An f-string, as the list of its parts.
abbrev pub concat : List String → String
concat [] = ""
concat (s ∷ ss) = append s (concat ss)

-- `sep.join(parts)`
abbrev pub join : String → List String → String
join sep [] = ""
join sep (s ∷ []) = s
join sep (s ∷ t ∷ ss) = append s (append sep (join sep (t ∷ ss)))

abbrev pub Text : Type 0
Text = List ℕ

abbrev pub codes : String → Text
codes String.[] = []
codes (String.◌∷◌ c s) = code c ∷ codes s

-- `str.isspace` of one character, which `\s` of a pattern follows: all of Unicode's.
unfoldable pub is_space : ℕ → Bool
is_space c =
    (leb 9 c && leb c 13)
    || (leb 28 c && leb c 32)
    || eqb c 133
    || eqb c 160
    || eqb c 5760
    || (leb 8192 c && leb c 8202)
    || eqb c 8232
    || eqb c 8233
    || eqb c 8239
    || eqb c 8287
    || eqb c 12288

unfoldable pub drop_space : Text → Text
unfolding is_space
drop_space [] = []
drop_space (c ∷ t) = if is_space c then drop_space t else c ∷ t

-- `s.strip()`
unfoldable pub strip : Text → Text
unfolding drop_space
strip t = reverse (drop_space (reverse (drop_space t)))

-- `t.startswith(p)`, and `p in t`
unfoldable pub is_prefix : Text → Text → Bool
is_prefix [] t = true
is_prefix (p ∷ ps) [] = false
is_prefix (p ∷ ps) (c ∷ t) = eqb p c && is_prefix ps t

unfoldable pub is_infix : Text → Text → Bool
unfolding is_prefix
is_infix p [] = is_prefix p []
is_infix p (c ∷ t) = is_prefix p (c ∷ t) || is_infix p t

abbrev pub is_empty : Text → Bool
is_empty [] = true
is_empty (c ∷ t) = false
