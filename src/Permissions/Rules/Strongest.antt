-- ===== src/Permissions/Rules/Strongest.antt =====
-- The ruling on a name is the strongest of the rules that match it, in whatever order they stand.
use Prim.Native.Nat.{max}
use lisptc.Prelude.{
  ℕ, ◌+◌, ◌-◌, String, ◌≡◌, refl, Option, none, some, List, [], ◌∷◌, ◌++◌, arith, ◌==◌, Bool-cases,
  inl, inr, if◌then◌else◌,
}
use lisptc.Permissions.{Verdict, Ruling, strength}
use lisptc.Permissions.Glob.{test}
use lisptc.Permissions.Rules.{
  Rule, PermissionRules, winner_from, ruling_of, or_verdict, named, hides, decide,
}

-- One more than the greatest strength of a matching rule, and 0 where no rule matches.
abbrev pub peak : List Rule → String → ℕ
peak [] name = 0
peak (rule ∷ rules) name =
    if test rule.pattern name
    then max (strength rule.verdict + 1) (peak rules name)
    else peak rules name

abbrev rank : Option Rule → ℕ
rank none = 0
rank (some rule) = strength rule.verdict + 1

abbrev pub level : Option Ruling → ℕ
level none = 0
level (some ruling) = strength ruling.verdict + 1

winner_from-rank :
    (winner : Option Rule) (rules : List Rule) (name : String)
    → rank (winner_from winner rules name) ≡ max (rank winner) (peak rules name)
unfolding winner_from
winner_from-rank winner [] name = omega arith
winner_from-rank none (rule ∷ rules) name = elim (Bool-cases (test rule.pattern name)) [
  | inl yes_match ↦ rw yes_match (omega (arith, winner_from-rank (some rule) rules name))
  | inr no_match ↦ rw no_match (winner_from-rank none rules name)
]
winner_from-rank (some w) (rule ∷ rules) name =
    ground (arith, winner_from-rank (some w) rules name, winner_from-rank (some rule) rules name)

level-ruling_of : (winner : Option Rule) → level (ruling_of winner) ≡ rank winner
level-ruling_of none = refl
level-ruling_of (some rule) = refl

-- The ruling of a name by its rules has exactly the greatest strength of the rules that match.
pub level-named :
    (held : PermissionRules) (name : String) → level (named held name) ≡ peak held.rules name
unfolding named
level-named held name = omega (
  arith,
  level-ruling_of (winner_from none held.rules name),
  winner_from-rank none held.rules name,
)

pub peak-append :
    (xs ys : List Rule) (name : String) → peak (xs ++ ys) name ≡ max (peak xs name) (peak ys name)
peak-append [] ys name = omega arith
peak-append (x ∷ xs) ys name = ground (arith, peak-append xs ys name)

strength-or_verdict :
    (ruling : Option Ruling) (fallback : Verdict) (p : ℕ)
    → level ruling ≡ p
    → strength (or_verdict ruling fallback).verdict ≡ (if p == 0 then strength fallback else p - 1)
strength-or_verdict none fallback p h = ground arith
strength-or_verdict (some ruling) fallback p h = ground arith

-- The decision on a name is deny if the name is hidden; else its strength is the greatest of the
-- matching rules', and that of the default where none matches.
strength-decide :
    (held : PermissionRules) (name : String)
    → strength (decide held name).verdict ≡ (
        if hides held name
        then 2
        else if peak held.rules name == 0
        then strength held.fallback
        else peak held.rules name - 1)
unfolding decide
strength-decide held name = elim (Bool-cases (hides held name)) [
  | inl hidden_name ↦ rw hidden_name
  | inr shown ↦ rw shown (
      strength-or_verdict (named held name) held.fallback (peak held.rules name)
        (level-named held name))
]
