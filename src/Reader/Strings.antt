-- ===== src/Reader/Strings.antt =====
-- packages/shared/src/lisp-tokens.ts: the string token of the token pattern, and that a quoted text is one.
use lisptc.Prelude.{
  ℕ, false, ◌≡◌, refl, ap, ◌∙◌, Option, none, some, [], ◌∷◌, ◌++◌, All, append_assoc, ◌==◌,
  if◌then◌else◌, arith,
}
use lisptc.Reader.Texts.{
  Codes, quote, backslash, code_in, letters, escaped, escape, quoted_text, is_line_end, unquoted,
  code_in-All, code_in-none, IsRead, letters-IsRead, unquoted-quoted,
}

-- the string token of `tokenPattern`, `"(\\.?|.)*?"`: what it matches from behind the opening quote on, and
-- what is left. The closing quote is tried first; a backslash takes the character behind it, and stands
-- alone where that finds no end.
abbrev pub with_front : Codes → Option (Codes × Codes) → Option (Codes × Codes)
with_front front none = none
with_front front (some (token, rest)) = some (front ++ token, rest)

abbrev pub or_else : Option (Codes × Codes) → Option (Codes × Codes) → Option (Codes × Codes)
or_else none other = other
or_else (some found) other = some found

unfoldable pub string_body : Codes → Option (Codes × Codes)
string_body [] = none
string_body (c ∷ []) = if c == quote then some (c ∷ [], []) else none
string_body (c ∷ d ∷ cs) =
    let two = with_front (c ∷ d ∷ []) (string_body cs) in
    let one = with_front (c ∷ []) (string_body (d ∷ cs)) in
    if c == quote
    then some (c ∷ [], d ∷ cs)
    else if c == backslash
    then (if is_line_end d then one else or_else two one)
    else if is_line_end c
    then none
    else one

unfoldable pub string_token : Codes → Option (Codes × Codes)
string_token [] = none
string_token (c ∷ cs) = if c == quote then with_front (c ∷ []) (string_body cs) else none

string_body-quote : (rest : Codes) → string_body (quote ∷ rest) ≡ some (quote ∷ [], rest)
unfolding string_body
string_body-quote [] = refl
string_body-quote (d ∷ rest) = refl

string_body-plain :
    (c : ℕ) (cs : Codes)
    → (c == quote) ≡ false
    → (c == backslash) ≡ false
    → is_line_end c ≡ false
    → string_body (c ∷ cs) ≡ with_front (c ∷ []) (string_body cs)
unfolding string_body
string_body-plain c [] q b l = rw q refl
string_body-plain c (d ∷ cs) q b l = rw (q, b, l) refl

string_body-letter :
    (letter : ℕ) (cs token rest : Codes)
    → is_line_end letter ≡ false
    → string_body cs ≡ some (token, rest)
    → string_body (backslash ∷ letter ∷ cs) ≡ some (backslash ∷ letter ∷ token, rest)
unfolding string_body
string_body-letter letter cs token rest l e = rw (l, e) refl

-- the codes that end a line and that the printer does not escape
abbrev pub IsPlainLine : ℕ → Type 0
IsPlainLine c = ((c == 8232) ≡ false) × ((c == 8233) ≡ false)

not_line_end : (c : ℕ) → code_in letters c ≡ none → IsPlainLine c → is_line_end c ≡ false
not_line_end c e (two, three) =
    let table = code_in-none letters c e in
    let ten : (10 == c) ≡ false = table.1.1.0 in
    let thirteen : (13 == c) ≡ false = table.1.1.1.1.1.0 in
    ground (arith, ten, thirteen, two, three)

string_body-escaped :
    (c : ℕ) (text rest : Codes) (found : Option ℕ)
    → code_in letters c ≡ found
    → IsPlainLine c
    → string_body (text ++ quote ∷ rest) ≡ some (text ++ quote ∷ [], rest)
    → string_body (escaped found c text ++ quote ∷ rest)
      ≡ some (escaped found c text ++ quote ∷ [], rest)
string_body-escaped c text rest none e plain h =
    let table = code_in-none letters c e in
    let is_text : (quote == c) ≡ false = table.1.1.1.1.1.1.0 in
    let is_bare : (backslash == c) ≡ false = table.1.1.1.1.1.1.1.0 in
    string_body-plain c (text ++ quote ∷ rest) (ground (arith, is_text)) (ground (arith, is_bare))
      (not_line_end c e plain)
    ∙ ap (with_front (c ∷ [])) h
string_body-escaped c text rest (some letter) e plain h =
    string_body-letter letter (text ++ quote ∷ rest) (text ++ quote ∷ []) rest
      (code_in-All IsRead letters c letter letters-IsRead e).1 h

string_body-escape :
    (text rest : Codes)
    → All IsPlainLine text
    → string_body (escape text ++ quote ∷ rest) ≡ some (escape text ++ quote ∷ [], rest)
unfolding escape
string_body-escape [] rest plain = string_body-quote rest
string_body-escape (c ∷ text) rest (plain, all_plain) =
    string_body-escaped c (escape text) rest (code_in letters c) refl plain
      (string_body-escape text rest all_plain)

-- A text without the line ends U+2028 and U+2029 reads back as it was: its quoted form, whatever follows it,
-- is one string token of the reader with the rest left over, and what that token unquotes to is the text.
pub unquoted-quoted_text :
    (text rest : Codes)
    → All IsPlainLine text
    → (string_token (quoted_text text ++ rest) ≡ some (quoted_text text, rest))
      × (unquoted (quoted_text text) ≡ some text)
unfolding string_token quoted_text
unquoted-quoted_text text rest plain = (
  rw (append_assoc (escape text) (quote ∷ []) rest, string_body-escape text rest plain) refl,
  unquoted-quoted text,
)
