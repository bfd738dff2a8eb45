-- ===== src/Compile/Scopes.antt =====
-- What lexical scope gives for the variables of a form, and scanning for several scopes.
pub mod Names
pub mod Heads
pub mod Identity
pub mod Resolved
use lisptc.Prelude.{
  ℕ, zero, suc, ◌-◌, ◌≡◌, refl, ap, sym, ◌∙◌, String, Bool, true, false, Option, none, some, List,
  [], ◌∷◌, ◌===◌, ◌==◌, ◌||◌, if◌then◌else◌, Bool-cases, Option-cases, inl, inr, arith,
}
use lisptc.Prelude.Dict
use lisptc.Value as V
use lisptc.Value.{Value, null, cell, arg}
use lisptc.Compile.{
  Table, is_sym, is_unquote, found_or, scan_for_args, scan_items, scan_for_qq, scan_qq_items,
}

abbrev pub here_or : Option ℕ → ℕ → String → Value → Value
here_or none level name other = other
here_or (some offset) level name other = arg level offset name

-- the variable that a name is in scopes of which the innermost is the first
abbrev pub search : ℕ → List Table → String → Value
search level [] name = V.sym name
search level (t ∷ ts) name = here_or (Dict.get name t) level name (search (suc level) ts name)

-- Every occurrence of a variable replaced by what `f` gives for its name. Nothing under a quote is one, and
-- in a template what stands under as many unquotes as quasiquotes: `(quasiquote x)`, `(unquote x)` and
-- `(unquote-splicing x)` are such forms wherever a pair is, at the end of a list too, as `qqExpand` has it.
unfoldable mutual
  pub replace : (String → Value) → Value → Value
  replace f (V.sym name) = f name
  replace f (cell head rest) =
      let quasi = cell head (replace_qq f rest 0) in
      let items = cell (replace f head) (replace_items f rest) in
      if is_sym "quote" head
      then cell head rest
      else if is_sym "quasiquote" head
      then quasi
      else items
  replace f x = x

  pub replace_items : (String → Value) → Value → Value
  replace_items f (cell head rest) = cell (replace f head) (replace_items f rest)
  replace_items f x = x

  pub replace_qq : (String → Value) → Value → ℕ → Value
  replace_qq f (cell head rest) level =
      let deeper = cell head (replace_qq f rest (suc level)) in
      let hole = cell head (replace f rest) in
      let higher = cell head (replace_qq f rest (level - 1)) in
      let pair = cell (replace_qq f head level) (replace_qq f rest level) in
      if is_sym "quasiquote" head
      then deeper
      else if is_unquote head
      then if level == 0 then hole else higher
      else pair
  replace_qq f x level = x

-- no list ends with `quasiquote`, `unquote` or `unquote-splicing` and one more item, as `(a . ,x)` does
abbrev pub is_mark : Value → Bool
is_mark head = is_sym "quasiquote" head || is_unquote head

abbrev pub starts_marked : Value → Bool
starts_marked (cell head rest) = is_mark head
starts_marked _ = false

abbrev pub IsUndotted : Value → Type 0
IsUndotted (cell head rest) = (starts_marked rest ≡ false) × IsUndotted head × IsUndotted rest
IsUndotted _ = Unit

-- source text has no resolved variables
abbrev pub IsSource : Value → Type 0
IsSource (arg _ _ _) = ⊥
IsSource (cell head rest) = IsSource head × IsSource rest
IsSource _ = Unit

-- the scopes one after the other, the innermost last
abbrev pub scan_all : List Table → Value → Value
scan_all [] x = x
scan_all (t ∷ ts) x = scan_for_args (scan_all ts x) t
