-- ===== src/Compile/Scopes/Resolved.antt =====
-- Resolving by one scope after the other is resolving by lexical scope.
use lisptc.Prelude.{
  ℕ, suc, ◌-◌, ◌≡◌, refl, ap, sym, ◌∙◌, List, [], ◌∷◌, ◌==◌, Bool-cases, inl, inr, arith, false,
}
use lisptc.Value as V
use lisptc.Value.{Value, null, cell, arg}
use lisptc.Compile.{
  Table, is_sym, is_unquote, scan_for_args, scan_items, scan_for_qq, scan_qq_items,
}
use lisptc.Compile.Scopes.{
  search, replace, replace_items, replace_qq, starts_marked, IsSource, IsUndotted, scan_all,
}
use lisptc.Compile.Scopes.Names.{scan-search}
use lisptc.Compile.Scopes.Heads.{replace-is_sym, replace_qq-is_sym, replace_qq-is_unquote}
use lisptc.Compile.Scopes.Identity.{replace-sym}

mutual
  unfolding scan_for_args replace

  scan-replace :
      (t : Table) (ts : List Table) (x : Value)
      → IsSource x
      → IsUndotted x
      → scan_for_args (replace (search 0 ts) x) t ≡ replace (search 0 (t ∷ ts)) x
  scan-replace t ts (V.sym name) h u = scan-search t ts 0 name
  scan-replace t ts (cell head rest) (h, k) (alone, u, v) =
      let quasi = scan_qq-replace t ts rest 0 k v in
      let first = scan-replace t ts head h u in
      let items = scan_items-replace t ts rest k v in
      elim (Bool-cases (is_sym "quote" head)) [
        | inl quoted ↦ rw (quoted, quoted) refl
        | inr bare ↦ elim (Bool-cases (is_sym "quasiquote" head)) [
          | inl template ↦ rw (bare, template, bare, template) (ap (cell head) quasi)
          | inr form ↦
              rw
                (
                  bare,
                  form,
                  replace-is_sym ts "quote" head bare,
                  replace-is_sym ts "quasiquote" head form,
                  first,
                  items,
                )
                refl
        ]
      ]
  scan-replace t ts (arg _ _ _) h u = elim h [ ]
  scan-replace t ts _ h u = refl

  scan_items-replace :
      (t : Table) (ts : List Table) (x : Value)
      → IsSource x
      → IsUndotted x
      → scan_items (replace_items (search 0 ts) x) t ≡ replace_items (search 0 (t ∷ ts)) x
  scan_items-replace t ts (cell head rest) (h, k) (alone, u, v) =
      rw (scan-replace t ts head h u, scan_items-replace t ts rest k v) refl
  scan_items-replace t ts (arg _ _ _) h u = elim h [ ]
  scan_items-replace t ts _ h u = refl

  scan_qq-replace :
      (t : Table) (ts : List Table) (x : Value) (level : ℕ)
      → IsSource x
      → IsUndotted x
      → scan_for_qq (replace_qq (search 0 ts) x level) t level
        ≡ replace_qq (search 0 (t ∷ ts)) x level
  scan_qq-replace t ts (cell head rest) level (h, k) (alone, u, v) =
      let deeper = scan_qq-replace t ts rest (suc level) k v in
      let hole = scan-replace t ts rest k v in
      let higher = scan_qq-replace t ts rest (level - 1) k v in
      let first = scan_qq-replace t ts head level h u in
      let items = scan_qq_items-replace t ts rest level k v alone in
      elim (Bool-cases (is_sym "quasiquote" head)) [
        | inl template ↦ rw (template, template) (ap (cell head) deeper)
        | inr bare ↦ elim (Bool-cases (is_unquote head)) [
          | inl out ↦ elim (Bool-cases (level == 0)) [
            | inl top ↦ rw (bare, out, top, bare, out, top) (ap (cell head) hole)
            | inr below ↦ rw (bare, out, below, bare, out, below) (ap (cell head) higher)
          ]
          | inr form ↦
              rw
                (
                  bare,
                  form,
                  replace_qq-is_sym (search 0 ts) "quasiquote" head level bare,
                  replace_qq-is_unquote (search 0 ts) head level form,
                  first,
                  items,
                )
                refl
        ]
      ]
  scan_qq-replace t ts (arg _ _ _) level h u = elim h [ ]
  scan_qq-replace t ts _ level h u = refl

  scan_qq_items-replace :
      (t : Table) (ts : List Table) (x : Value) (level : ℕ)
      → IsSource x
      → IsUndotted x
      → starts_marked x ≡ false
      → scan_qq_items (replace_qq (search 0 ts) x level) t level
        ≡ replace_qq (search 0 (t ∷ ts)) x level
  scan_qq_items-replace t ts (cell head rest) level (h, k) (alone, u, v) unmarked =
      let bare : is_sym "quasiquote" head ≡ false = ground (arith, unmarked) in
      let form : is_unquote head ≡ false = ground (arith, unmarked) in
      rw
        (
          bare,
          form,
          scan_qq-replace t ts head level h u,
          scan_qq_items-replace t ts rest level k v alone,
        )
        refl
  scan_qq_items-replace t ts (arg _ _ _) level h u unmarked = elim h [ ]
  scan_qq_items-replace t ts _ level h u unmarked = refl

-- Scanning a source form, in which no list ends in an unquote or quasiquote behind a dot, for the parameters
-- of the scopes round it, one scope after the other and the innermost last, gives each occurrence of a
-- variable the innermost scope that has its name, counted from the inside, and the offset there; a name
-- that no scope has stays a global symbol. In a template the occurrences are those that stand under as many
-- unquotes as quasiquotes, in any place of a pair.
pub scan_all-replace :
    (ts : List Table) (x : Value)
    → IsSource x
    → IsUndotted x
    → scan_all ts x ≡ replace (search 0 ts) x
scan_all-replace [] x h u = sym (replace-sym x)
scan_all-replace (t ∷ ts) x h u =
    ap (λ y. scan_for_args y t) (scan_all-replace ts x h u) ∙ scan-replace t ts x h u
