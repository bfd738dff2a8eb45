-- ===== src/Permissions/Parse.antt =====
-- packages/permissions/src/rules.ts: `parseRules` on the forms of a configuration. The text of the
-- configuration, which `readForms` reads with the Lisp reader, is taken as the forms it holds.
pub mod Lasting
use Prim.Native.String.{◌++◌}
use mathlib.Core.List.{◌++◌ as ◌++ₗ◌}
use lisptc.Prelude.{
  ℕ, String, Bool, true, false, Option, none, some, List, [], ◌∷◌, map, ◌===◌, ltb, ◌||◌,
  if◌then◌else◌,
}
use lisptc.Prelude.Dict
use lisptc.Prelude.Dict.{Dict}
use lisptc.Prelude.Result.{Result, ok, err, ◌>>=◌}
use lisptc.Value.{Value, null, text, sym, key, cell}
use lisptc.Permissions.{Verdict, allow, deny, ask, ServerAccess, hidden, denied, server_strength}
use lisptc.Permissions.Glob.{Glob, glob}
use lisptc.Permissions.Rules.{Rule, PermissionRules, no_rules}

-- the messages of the `EvalException`s
pub data ConfigError : Type 0 where
  unknown_form bad_form names_nothing bad_option bad_name bad_verdict no_server_rules : ConfigError
  bad_server_rule unknown_server_rule : ConfigError

abbrev pub Parsed : Type 0 → Type 0
Parsed A = Result ConfigError A

args_of : Value → Parsed (List Value)
args_of null = ok []
args_of (cell a d) = do rest ← args_of d; ok (a ∷ rest)
args_of _ = err bad_form

-- `split`: the head's name and the arguments of a form
unfoldable pub split : Value → Parsed (String × List Value)
unfolding args_of
split (cell (sym name) d) = do args ← args_of d; ok (name, args)
split _ = err bad_form

verdict_named : String → Parsed Verdict
verdict_named name =
    if name === "allow"
    then ok allow
    else if name === "deny"
    then ok deny
    else if name === "ask"
    then ok ask
    else err bad_verdict

verdict_of : Value → Parsed Verdict
unfolding verdict_named
verdict_of (sym name) = verdict_named name
verdict_of (text name) = verdict_named name
verdict_of _ = err bad_verdict

single : List Value → Parsed Value
single (x ∷ []) = ok x
single _ = err bad_form

name_of : Value → Parsed String
name_of (sym name) = ok name
name_of (text name) = if name === "" then err bad_name else ok name
name_of _ = err bad_name

abbrev or_later : Option String → String → Option String
or_later none reason = some reason
or_later (some later) reason = some later

-- the loop of `namesAndReason`; of several reasons the last one holds
names_loop : List Value → Parsed (List String × Option String)
unfolding name_of
names_loop [] = ok ([], none)
names_loop (key k ∷ text reason ∷ args) =
    let below = names_loop args in
    if k === "reason"
    then (do rest ← below; ok (rest.0, or_later rest.1 reason))
    else err bad_option
names_loop (key k ∷ args) = err bad_option
names_loop (x ∷ args) = do name ← name_of x; rest ← names_loop args; ok (name ∷ rest.0, rest.1)

some_names : List String × Option String → Parsed (List String × Option String)
some_names ([], reason) = err names_nothing
some_names (name ∷ names, reason) = ok (name ∷ names, reason)

unfoldable pub names_and_reason : List Value → Parsed (List String × Option String)
unfolding names_loop some_names
names_and_reason args = names_loop args >>= some_names

unfoldable pub rule_set : Verdict → List Value → String → Parsed (List Rule)
rule_set verdict args prefix = do
  found ← names_and_reason args
  ok (
      map (λ name. record { verdict = verdict; pattern = glob (prefix ++ name); reason = found.1 })
        found.0)

-- the heads of the inner rules of a server form
pub data Inner : Type 0 where
  hide only_these : Inner
  verdict : Verdict → Inner
  unknown_inner : Inner

inner_of : String → Inner
inner_of head =
    if head === "hide"
    then hide
    else if head === "only"
    then only_these
    else if head === "allow"
    then verdict allow
    else if head === "deny"
    then verdict deny
    else if head === "ask"
    then verdict ask
    else unknown_inner

abbrev or_none_shown : Option (List Glob) → List Glob
or_none_shown none = []
or_none_shown (some shown) = shown

abbrev globs : String → List String → List Glob
globs prefix names = map (λ name. glob (prefix ++ name)) names

add_inner : PermissionRules → String → Inner → List Value → Parsed PermissionRules
add_inner held prefix hide args = do
  found ← names_and_reason args
  ok (record held { hidden_names = held.hidden_names ++ₗ globs prefix found.0 })
add_inner held prefix only_these args = do
  found ← names_and_reason args
  let shown = or_none_shown (Dict.get prefix held.only) ++ₗ globs prefix found.0
  ok (record held { only = Dict.put prefix shown held.only })
add_inner held prefix (verdict v) args = do
  added ← rule_set v args prefix
  ok (record held { rules = held.rules ++ₗ added })
add_inner held prefix unknown_inner args = err unknown_server_rule

add_inner_form : PermissionRules → String → Value → Parsed PermissionRules
unfolding add_inner inner_of
add_inner_form held prefix (cell a d) = do
  parts ← split (cell a d)
  add_inner held prefix (inner_of parts.0) parts.1
add_inner_form held prefix _ = err bad_server_rule

inner_loop : PermissionRules → String → List Value → Parsed PermissionRules
unfolding add_inner_form
inner_loop held prefix [] = ok held
inner_loop held prefix (form ∷ body) = do
  next ← add_inner_form held prefix form
  inner_loop next prefix body

read_server : PermissionRules → List Value → Parsed PermissionRules
unfolding inner_loop name_of
read_server held (name ∷ form ∷ body) = do
  server_name ← name_of name
  inner_loop held (server_name ++ "/") (form ∷ body)
read_server held _ = err no_server_rules

abbrev outranks : ServerAccess → Option ServerAccess → Bool
outranks access none = true
outranks access (some held) = ltb (server_strength held) (server_strength access)

restrict : ServerAccess → List String → Dict ServerAccess → Dict ServerAccess
restrict access [] servers = servers
restrict access (name ∷ names) servers =
    restrict access names
      (if outranks access (Dict.get name servers) then Dict.put name access servers else servers)

-- the heads that `parseRules` knows
pub data Head : Type 0 where
  default_verdict : Head
  rule_of : Verdict → Head
  server_rules deny_server hide_server unknown_head : Head

head_of : String → Head
head_of head =
    if head === "permission/default"
    then default_verdict
    else if head === "permission/allow"
    then rule_of allow
    else if head === "permission/deny"
    then rule_of deny
    else if head === "permission/ask"
    then rule_of ask
    else if head === "permission/server"
    then server_rules
    else if head === "permission/deny-server"
    then deny_server
    else if head === "permission/hide-server"
    then hide_server
    else unknown_head

add_form : PermissionRules → Head → List Value → Parsed PermissionRules
unfolding single verdict_of read_server restrict
add_form held default_verdict args = do
  given ← single args
  fallback ← verdict_of given
  ok (record held { fallback = fallback })
add_form held (rule_of v) args = do
  added ← rule_set v args ""
  ok (record held { rules = held.rules ++ₗ added })
add_form held server_rules args = read_server held args
add_form held deny_server args = do
  found ← names_and_reason args
  ok (record held { servers = restrict (denied found.1) found.0 held.servers })
add_form held hide_server args = do
  found ← names_and_reason args
  ok (record held { servers = restrict hidden found.0 held.servers })
add_form held unknown_head args = err unknown_form

parse_from : PermissionRules → List Value → Parsed PermissionRules
unfolding add_form head_of
parse_from held [] = ok held
parse_from held (form ∷ forms) = do
  parts ← split form
  next ← add_form held (head_of parts.0) parts.1
  parse_from next forms

unfoldable pub parse_rules : List Value → Parsed PermissionRules
unfolding parse_from
parse_rules forms = parse_from no_rules forms
