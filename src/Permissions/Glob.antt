-- ===== src/Permissions/Glob.antt =====
-- packages/permissions/src/rules.ts: `glob`, and what `RegExp.test` does with its patterns.
-- The pattern is anchored; every character but `*` stands for itself, and `.*` crosses no line end.
use Prim.Native.Char.{code}
use lisptc.Prelude.{
  ℕ, String, Bool, true, false, not, ◌&&◌, ◌||◌, List, [], ◌∷◌, ◌==◌, ◌===◌, if◌then◌else◌,
}

pub data Piece : Type 0 where
  lit : ℕ → Piece
  any_run : Piece

abbrev pub Glob : Type 0
Glob = List Piece

unfoldable pub codes : String → List ℕ
codes String.[] = []
codes (String.◌∷◌ c s) = code c ∷ codes s

pieces : List ℕ → Glob
pieces [] = []
pieces (c ∷ cs) = (if c == b'*' then any_run else lit c) ∷ pieces cs

-- The pattern `*` alone is the name of multiplication, and no wildcard.
unfoldable pub glob : String → Glob
unfolding pieces codes
glob pattern = if pattern === "*" then lit b'*' ∷ [] else pieces (codes pattern)

-- line terminators, which `.` does not match
abbrev ends_line : ℕ → Bool
ends_line c = c == 0x0a || c == 0x0d || c == 0x2028 || c == 0x2029

-- `more` is the rest of the pattern, on any text
run_then : (List ℕ → Bool) → List ℕ → Bool
run_then more [] = more []
run_then more (c ∷ cs) = more (c ∷ cs) || (not (ends_line c) && run_then more cs)

matches : Glob → List ℕ → Bool
unfolding run_then
matches [] [] = true
matches [] (c ∷ cs) = false
matches (lit p ∷ ps) [] = false
matches (lit p ∷ ps) (c ∷ cs) = c == p && matches ps cs
matches (any_run ∷ ps) cs = run_then (matches ps) cs

unfoldable pub test : Glob → String → Bool
unfolding matches codes
test g name = matches g (codes name)
