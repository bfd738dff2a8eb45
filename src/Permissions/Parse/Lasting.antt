-- ===== src/Permissions/Parse/Lasting.antt =====
-- Forms that are added to a configuration never weaken what its rules say of a name.
use lisptc.Prelude.{◌≤◌, String, ◌≡◌, refl, sym, ap, ◌∙◌, List, [], ◌∷◌, ◌++◌, arith}
use mathlib.Core.Path.{fun_ext}
use mathlib.Core.List.{append_assoc, append-nil}
use lisptc.Prelude.Result.{ok, err, ◌>>=◌, >>=-eq-ok, >>=_assoc}
use lisptc.Value.{Value, cell}
use lisptc.Permissions.Rules.{Rule, PermissionRules, no_rules, named}
use lisptc.Permissions.Rules.Strongest.{peak, peak-append, level, level-named}
use lisptc.Permissions.Parse.{
  Parsed, Inner, hide, only_these, verdict, unknown_inner, add_inner, add_inner_form, inner_loop,
  read_server, Head, default_verdict, rule_of, server_rules, deny_server, hide_server, unknown_head,
  add_form, parse_from, parse_rules, names_and_reason, rule_set, single, verdict_of, split,
  inner_of, head_of, name_of,
}

-- `next` holds the rules of `held`, and perhaps more behind them
abbrev Extends : PermissionRules → PermissionRules → Type 0
Extends held next = (added : List Rule) × (next.rules ≡ held.rules ++ added)

Extends-refl : (held : PermissionRules) → Extends held held
Extends-refl held = ([], sym (append-nil held.rules))

Extends-trans : (a b c : PermissionRules) → Extends a b → Extends b c → Extends a c
Extends-trans a b c (xs, e) (ys, f) =
    (xs ++ ys, f ∙ ap (λ l. l ++ ys) e ∙ append_assoc a.rules xs ys)

abbrev rules_in : Parsed PermissionRules → List Rule
rules_in (ok held) = held.rules
rules_in (err e) = []

-- a step that leaves the rules alone
Extends-eq :
    (held kept next : PermissionRules)
    → kept.rules ≡ held.rules
    → ◌≡◌ {A = Parsed PermissionRules} (ok kept) (ok next)
    → Extends held next
Extends-eq held kept next same f = ([], sym (ap rules_in f) ∙ same ∙ sym (append-nil held.rules))

add_inner-Extends :
    (held next : PermissionRules) (prefix : String) (inner : Inner) (args : List Value)
    → add_inner held prefix inner args ≡ ok next
    → Extends held next
unfolding add_inner
add_inner-Extends held next prefix hide args h =
    let (found, e, f) = >>=-eq-ok (names_and_reason args) _ h in Extends-eq held _ next refl f
add_inner-Extends held next prefix only_these args h =
    let (found, e, f) = >>=-eq-ok (names_and_reason args) _ h in Extends-eq held _ next refl f
add_inner-Extends held next prefix (verdict v) args h =
    let (added, e, f) = >>=-eq-ok (rule_set v args prefix) _ h in (added, sym (ap rules_in f))
add_inner-Extends held next prefix unknown_inner args h = cc

add_inner_form-Extends :
    (held next : PermissionRules) (prefix : String) (form : Value)
    → add_inner_form held prefix form ≡ ok next
    → Extends held next
unfolding add_inner_form
add_inner_form-Extends held next prefix (cell a d) h =
    let (parts, e, f) = >>=-eq-ok (split (cell a d)) _ h in
    add_inner-Extends held next prefix (inner_of parts.0) parts.1 f
add_inner_form-Extends held next prefix _ h = cc

inner_loop-Extends :
    (held next : PermissionRules) (prefix : String) (body : List Value)
    → inner_loop held prefix body ≡ ok next
    → Extends held next
unfolding inner_loop
inner_loop-Extends held next prefix [] h = Extends-eq held held next refl h
inner_loop-Extends held next prefix (form ∷ body) h =
    let (mid, e, f) = >>=-eq-ok (add_inner_form held prefix form) _ h in
    Extends-trans held mid next (add_inner_form-Extends held mid prefix form e)
      (inner_loop-Extends mid next prefix body f)

read_server-Extends :
    (held next : PermissionRules) (args : List Value)
    → read_server held args ≡ ok next
    → Extends held next
unfolding read_server
read_server-Extends held next [] h = cc
read_server-Extends held next (name ∷ []) h = cc
read_server-Extends held next (name ∷ form ∷ body) h =
    let (server_name, e, f) = >>=-eq-ok (name_of name) _ h in
    inner_loop-Extends held next _ (form ∷ body) f

add_form-Extends :
    (held next : PermissionRules) (head : Head) (args : List Value)
    → add_form held head args ≡ ok next
    → Extends held next
unfolding add_form
add_form-Extends held next default_verdict args h =
    let (given, e, f) = >>=-eq-ok (single args) _ h in
    let (fallback, e', f') = >>=-eq-ok (verdict_of given) _ f in Extends-eq held _ next refl f'
add_form-Extends held next (rule_of v) args h =
    let (added, e, f) = >>=-eq-ok (rule_set v args "") _ h in (added, sym (ap rules_in f))
add_form-Extends held next server_rules args h = read_server-Extends held next args h
add_form-Extends held next deny_server args h =
    let (found, e, f) = >>=-eq-ok (names_and_reason args) _ h in Extends-eq held _ next refl f
add_form-Extends held next hide_server args h =
    let (found, e, f) = >>=-eq-ok (names_and_reason args) _ h in Extends-eq held _ next refl f
add_form-Extends held next unknown_head args h = cc

parse_from-Extends :
    (held next : PermissionRules) (forms : List Value)
    → parse_from held forms ≡ ok next
    → Extends held next
unfolding parse_from
parse_from-Extends held next [] h = Extends-eq held held next refl h
parse_from-Extends held next (form ∷ forms) h =
    let (parts, e, f) = >>=-eq-ok (split form) _ h in
    let (mid, e', f') = >>=-eq-ok (add_form held (head_of parts.0) parts.1) _ f in
    Extends-trans held mid next (add_form-Extends held mid (head_of parts.0) parts.1 e')
      (parse_from-Extends mid next forms f')

parse_from-append :
    (start : PermissionRules) (forms added : List Value)
    → parse_from start (forms ++ added) ≡ (parse_from start forms >>= λ held. parse_from held added)
unfolding parse_from
parse_from-append start [] added = refl
parse_from-append start (form ∷ forms) added =
    ap (λ k. split form >>= k)
      (fun_ext λ parts.
        ap (λ k. add_form start (head_of parts.0) parts.1 >>= k)
          (fun_ext λ mid. parse_from-append mid forms added)
        ∙ sym (>>=_assoc (add_form start (head_of parts.0) parts.1) _ _))
    ∙ sym (>>=_assoc (split form) _ _)

-- If a configuration parses with forms added behind it, then the ruling on every name by rule is at
-- least as strong as before; in particular a name that was denied by rule stays denied.
pub named-parse_rules :
    (forms added : List Value) (held next : PermissionRules) (name : String)
    → parse_rules forms ≡ ok held
    → parse_rules (forms ++ added) ≡ ok next
    → level (named held name) ≤ level (named next name)
unfolding parse_rules
named-parse_rules forms added held next name h k =
    let (mid, e', later) =
      >>=-eq-ok (parse_from no_rules forms) (λ start. parse_from start added)
        (sym (parse_from-append no_rules forms added) ∙ k) in
    let same : ok mid ≡ ok held = sym e' ∙ h in
    let (new, e) = parse_from-Extends mid next added later in
    omega (
      arith,
      level-named held name,
      level-named next name,
      ap (λ rs. peak rs name) (ap rules_in same),
      peak-append mid.rules new name,
      ap (λ rs. peak rs name) e,
    )
