-- ===== src/Reader/Tests.antt =====
-- Runs of the reader and the printer, and the theorems on them.
use lisptc.Prelude.{some, none, true, ◌≡◌, refl, List, [], ◌∷◌, ◌++◌}
use lisptc.Prelude.Result.{ok, err}
use lisptc.Value.{Value, null, truth, text, sym, cell}
use lisptc.Reader.{
  Token, newline, token, end_of_file, syntax, read, is_empty, next_token, mark_of, parse_expression,
  parse_list_body, str, str_only, str_rest, prefix_of,
}
use lisptc.Reader.Items.{source}
use lisptc.Reader.Written.{IsReadable, read-str}
use lisptc.Reader.Texts.{Codes, quoted_text, escape, code_in, unquoted, unescape}
use lisptc.Reader.Strings.{string_token, string_body, unquoted-quoted_text}
use lisptc.Reader.Fuel.{EndsWithin, read-EndsWithin}

-- `(f 'x . "s")`
abbrev form : Value
form = cell (sym "f") (cell (cell (sym "quote") (cell (sym "x") null)) (text "s"))

abbrev written : List Token
written =
    token (sym "(")
    ∷ token (sym "f")
    ∷ token (sym "'")
    ∷ token (sym "x")
    ∷ token (sym ".")
    ∷ token (text "s")
    ∷ token (sym ")")
    ∷ []

-- each atom of the runs is one token
abbrev spelled : Value → List Token
spelled x = token x ∷ []

str-form : str spelled form ≡ written
unfolding str str_rest prefix_of
str-form = refl

-- a comma takes the `@` of a name
str-at :
    str spelled (cell (sym "unquote") (cell (sym "@x") null))
    ≡ token (sym ",@") ∷ token (sym "x") ∷ []
unfolding str str_only str_rest prefix_of
str-at = refl

form-IsReadable : IsReadable spelled form
unfolding mark_of
form-IsReadable = ((refl, refl, refl), (((refl, refl, refl), ((refl, refl, refl), refl)), refl))

read-str_example :
    read (source (str spelled form ++ token truth ∷ []) 1) ≡ ok (form, source (token truth ∷ []) 1)
read-str_example = read-str spelled form (token truth ∷ []) 1 form-IsReadable

abbrev broken : List Token
broken = token (sym "(") ∷ newline ∷ token (sym ".") ∷ token (sym ")") ∷ []

read-broken : read (source broken 1) ≡ err (syntax 2)
unfolding read next_token mark_of parse_expression parse_list_body
read-broken = refl

read-unfinished : read (source (token (sym "(") ∷ token (sym "f") ∷ []) 1) ≡ err end_of_file
unfolding read next_token mark_of parse_expression parse_list_body
read-unfinished = refl

read-EndsWithin_example : EndsWithin 6 (read (source written 1))
read-EndsWithin_example = read-EndsWithin (source written 1)

is_empty-newlines : is_empty (source (newline ∷ newline ∷ []) 1) ≡ true
unfolding is_empty
is_empty-newlines = refl

-- a quote, a line's end, a letter and a backslash
abbrev spoken : Codes
spoken = 34 ∷ 10 ∷ 97 ∷ 92 ∷ []

quoted_text-spoken : quoted_text spoken ≡ 34 ∷ 92 ∷ 34 ∷ 92 ∷ 110 ∷ 97 ∷ 92 ∷ 92 ∷ 34 ∷ []
unfolding quoted_text escape code_in
quoted_text-spoken = refl

unquoted-unknown : unquoted (34 ∷ 92 ∷ 97 ∷ 34 ∷ []) ≡ some (92 ∷ 97 ∷ [])
unfolding unquoted unescape code_in
unquoted-unknown = refl

unquoted-short : unquoted (34 ∷ []) ≡ none
unfolding unquoted
unquoted-short = refl

-- a bare text ends at its first quote, and one with a line's end in it is no text
string_token-runs :
    (string_token (34 ∷ 92 ∷ 34 ∷ 98 ∷ 34 ∷ 99 ∷ []) ≡ some (34 ∷ 92 ∷ 34 ∷ 98 ∷ 34 ∷ [], 99 ∷ []))
    × (string_token (34 ∷ 92 ∷ 34 ∷ []) ≡ some (34 ∷ 92 ∷ 34 ∷ [], []))
    × (string_token (34 ∷ 8232 ∷ 34 ∷ []) ≡ none)
unfolding string_token string_body
string_token-runs = (refl, refl, refl)

unquoted-quoted_text_example :
    (string_token (quoted_text spoken ++ 41 ∷ []) ≡ some (quoted_text spoken, 41 ∷ []))
    × (unquoted (quoted_text spoken) ≡ some spoken)
unquoted-quoted_text_example =
    unquoted-quoted_text spoken (41 ∷ [])
      ((refl, refl), ((refl, refl), ((refl, refl), ((refl, refl), tt))))
