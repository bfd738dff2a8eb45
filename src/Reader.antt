-- ===== src/Reader.antt =====
-- packages/interpreter/src/reader.ts: values out of tokens, and packages/interpreter/src/print.ts: the
-- tokens of a value that has no cycle. The cutting of a text into tokens other than strings, and numbers
-- and symbols in it, are not modelled: a token stands for the value that `readToken` reads it as, or for its error.
pub mod Items
pub mod Written
pub mod Fuel
pub mod Texts
pub mod Strings
mod Tests
use Prim.Native.String.{slice, len}
use package.text.Mathlib.Text.{starts_with}
use lisptc.Prelude.{
  ℕ, zero, suc, ◌+◌, ◌*◌, String, Bool, true, false, Option, none, some, List, [], ◌∷◌, ◌++◌,
  length, all, if◌then◌else◌, ◌===◌, ◌||◌, ◌&&◌,
}
use lisptc.Prelude.Result.{Result, ok, err, ◌>>=◌}
use lisptc.Value.{Value, null, truth, number, bigint, text, sym, key, cell, arg, object}

-- `malformed` is a text that does not end, and `handle` what is printed for a host value.
pub data Token : Type 0 where
  newline malformed handle : Token
  token : Value → Token

pub data ReadError : Type 0 where
  end_of_file unreadable out_of_fuel : ReadError
  syntax : ℕ → ReadError

pub record Source : Type 0 where
  pub tokens : List Token
  pub line : ℕ

abbrev pub Read : Type 0 → Type 0
Read A = Result ReadError A

-- `readToken`
unfoldable pub next_token : List Token → ℕ → Read (Value × Source)
next_token [] line = err end_of_file
next_token (newline ∷ tokens) line = next_token tokens (suc line)
next_token (malformed ∷ tokens) line = err (syntax line)
next_token (handle ∷ tokens) line = err unreadable
next_token (token x ∷ tokens) line = ok (x, record { tokens = tokens; line = line })

abbrev pub next : Source → Read (Value × Source)
next s = next_token s.tokens s.line

abbrev pub is_sym : String → Value → Bool
is_sym name (sym s) = s === name
is_sym name _ = false

-- what a token is to `parseExpression`
pub data Mark : Type 0 where
  opens unexpected atom : Mark
  quotes : String → Mark

unfoldable pub mark_of : Value → Mark
mark_of t =
    if is_sym "(" t
    then opens
    else if is_sym "'" t
    then quotes "quote"
    else if is_sym "`" t
    then quotes "quasiquote"
    else if is_sym "," t
    then quotes "unquote"
    else if is_sym ",@" t
    then quotes "unquote-splicing"
    else if is_sym "." t || is_sym ")" t
    then unexpected
    else atom

module _ {A : Type 0} where
  abbrev pub by_mark : Mark → (Unit {0} → A) → (String → A) → (Unit {0} → A) → (Unit {0} → A) → A
  by_mark opens f g h k = f tt
  by_mark (quotes name) f g h k = g name
  by_mark unexpected f g h k = h tt
  by_mark atom f g h k = k tt

  abbrev pub choose : Bool → (Unit {0} → A) → (Unit {0} → A) → A
  choose true f g = f tt
  choose false f g = g tt

abbrev pub quoted : String → Value → Value
quoted name x = cell (sym name) (cell x null)

-- The token just read is passed on, and the source behind it is given back.
unfoldable mutual
  pub parse_expression : ℕ → Value → Source → Read (Value × Source)
  parse_expression zero t s = err out_of_fuel
  parse_expression (suc n) t s =
      by_mark (mark_of t) (λ _. next s >>= λ p. parse_list_body n p.0 p.1)
        (λ name. next s >>= λ p. parse_expression n p.0 p.1 >>= λ q. ok (quoted name q.0, q.1))
        (λ _. err (syntax s.line)) (λ _. ok (t, s))

  pub parse_list_body : ℕ → Value → Source → Read (Value × Source)
  parse_list_body zero t s = err out_of_fuel
  parse_list_body (suc n) t s =
      choose (is_sym ")" t) (λ _. ok (null, s))
        (λ _. parse_expression n t s >>= λ p. next p.1 >>= λ q.
          choose (is_sym "." q.0)
            (λ _. next q.1 >>= λ u. parse_expression n u.0 u.1 >>= λ v. next v.1 >>= λ w.
              choose (is_sym ")" w.0) (λ _. ok (cell p.0 v.0, w.1)) (λ _. err (syntax w.1.line)))
            (λ _. parse_list_body n q.0 q.1 >>= λ u. ok (cell p.0 u.0, u.1)))

-- `Reader.read`, on fuel that is enough for its tokens
unfoldable pub read : Source → Read (Value × Source)
read s = next s >>= λ p. parse_expression (2 * length s.tokens) p.0 p.1

abbrev pub is_newline : Token → Bool
is_newline newline = true
is_newline _ = false

-- `Reader.isEmpty`
unfoldable pub is_empty : Source → Bool
is_empty s = all is_newline s.tokens

-- `quotes` of print.ts
unfoldable pub prefix_of : Value → Option String
prefix_of t =
    if is_sym "quote" t
    then some "'"
    else if is_sym "quasiquote" t
    then some "`"
    else if is_sym "unquote" t
    then some ","
    else if is_sym "unquote-splicing" t
    then some ",@"
    else none

abbrev pub only : Value → (String → List Token) → Option (String → List Token)
only null written = some written
only _ written = none

abbrev pub abbreviated : Option String → Option (String → List Token) → List Token → List Token
abbreviated (some prefix) (some written) plain = written prefix
abbreviated _ _ plain = plain

-- `spelled` is what the reader cuts the text of an atom into that stands by itself
module _ (spelled : Value → List Token) where
  -- A prefix is put directly before the text of an item: a comma takes an `@` that the name of a symbol
  -- begins with, and the rest of the name stands by itself.
  abbrev pub after_prefix : Value → List Token → String → List Token
  after_prefix (sym name) written prefix =
      if starts_with name "@" && prefix === ","
      then token (sym ",@") ∷ spelled (sym (slice name 1 (len name)))
      else token (sym prefix) ∷ written
  after_prefix _ written prefix = token (sym prefix) ∷ written

  -- `str`, `strCell` and `strListBody`
  unfoldable mutual
    pub str : Value → List Token
    str (cell x rest) =
        abbreviated (prefix_of x) (str_only rest) (token (sym "(") ∷ str x ++ str_rest rest)
    str x = spelled x

    -- of a list of one item, that item behind a prefix
    pub str_only : Value → Option (String → List Token)
    str_only (cell x rest) = only rest (after_prefix x (str x))
    str_only _ = none

    -- the items behind the first, and the end
    pub str_rest : Value → List Token
    str_rest null = token (sym ")") ∷ []
    str_rest (cell x rest) = str x ++ str_rest rest
    str_rest x = token (sym ".") ∷ spelled x ++ token (sym ")") ∷ []
