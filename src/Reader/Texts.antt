-- ===== src/Reader/Texts.antt =====
-- packages/interpreter/src/print.ts: how a text is quoted, and packages/interpreter/src/reader.ts: how
-- a quoted text is read. A text is the list of its UTF-16 codes.
use mathlib.Core.Path.{subst}
use lisptc.Prelude.{
  ℕ, suc, ◌+◌, ◌-◌, Bool, false, not, ◌≡◌, refl, ap, ◌∙◌, Option, none, some, List, [], ◌∷◌, ◌++◌,
  length, take, drop, get_elem?, All, length-append, ltb, ◌==◌, ◌&&◌, ◌||◌, if◌then◌else◌, arith,
  Bool-cases, inl, inr,
}

abbrev pub Codes : Type 0
Codes = List ℕ

abbrev pub quote : ℕ
quote = b'"'

abbrev pub backslash : ℕ
backslash = b'\\'

unfoldable pub code_in : List (ℕ × ℕ) → ℕ → Option ℕ
code_in [] c = none
code_in ((from, to) ∷ table) c = let later = code_in table c in if from == c then some to else later

-- `escapes` of print.ts: \b, \t, \n, \v, \f, \r, the quote and the backslash, with their letters
abbrev pub letters : List (ℕ × ℕ)
letters =
    (8, b'b')
    ∷ (9, b't')
    ∷ (10, b'n')
    ∷ (11, b'v')
    ∷ (12, b'f')
    ∷ (13, b'r')
    ∷ (quote, quote)
    ∷ (backslash, backslash)
    ∷ []

-- `escapes` of reader.ts
abbrev pub meanings : List (ℕ × ℕ)
meanings =
    (backslash, backslash)
    ∷ (quote, quote)
    ∷ (b'n', 10)
    ∷ (b'r', 13)
    ∷ (b'f', 12)
    ∷ (b'b', 8)
    ∷ (b't', 9)
    ∷ (b'v', 11)
    ∷ []

abbrev pub escaped : Option ℕ → ℕ → Codes → Codes
escaped none c rest = c ∷ rest
escaped (some letter) c rest = backslash ∷ letter ∷ rest

unfoldable pub escape : Codes → Codes
escape [] = []
escape (c ∷ text) = escaped (code_in letters c) c (escape text)

unfoldable pub quoted_text : Codes → Codes
quoted_text text = quote ∷ escape text ++ quote ∷ []

-- what `.` of a regular expression does not match
abbrev pub is_line_end : ℕ → Bool
is_line_end c = c == 10 || c == 13 || c == 8232 || c == 8233

abbrev pub revealed : Option ℕ → ℕ → Codes → Codes
revealed none letter rest = backslash ∷ letter ∷ rest
revealed (some c) letter rest = c ∷ rest

-- `replace(/\\./g, …)`
unfoldable pub unescape : Codes → Codes
unescape [] = []
unescape (c ∷ []) = c ∷ []
unescape (c ∷ letter ∷ text) =
    let escape_read = revealed (code_in meanings letter) letter (unescape text) in
    let plain = c ∷ unescape (letter ∷ text) in
    if c == backslash && not (is_line_end letter) then escape_read else plain

abbrev pub is_quote : Option ℕ → Bool
is_quote none = false
is_quote (some c) = c == quote

-- `none` is a bad string
unfoldable pub unquoted : Codes → Option Codes
unquoted token =
    let last = length token - 1 in
    if ltb last 1 || not (is_quote (get_elem? token last))
    then none
    else some (unescape (take (last - 1) (drop 1 token)))

pub code_in-All :
    (P : ℕ → ℕ → Type 0) (table : List (ℕ × ℕ)) (c letter : ℕ)
    → All (λ e. P e.0 e.1) table
    → code_in table c ≡ some letter
    → P c letter
unfolding code_in
code_in-All P [] c letter h e = ground arith
code_in-All P ((from, to) ∷ table) c letter (p, h) e = elim (Bool-cases (from == c)) [
  | inl same ↦
      let here : from ≡ c = ground (arith, same) in
      let letter_is : to ≡ letter = ground (arith, rw same at e) in
      subst (λ d. P d letter) here (subst (λ d. P from d) letter_is p)
  | inr other ↦ code_in-All P table c letter h (rw other at e)
]

pub code_in-none :
    (table : List (ℕ × ℕ)) (c : ℕ) → code_in table c ≡ none → All (λ e. (e.0 == c) ≡ false) table
unfolding code_in
code_in-none [] c e = tt
code_in-none ((from, to) ∷ table) c e = elim (Bool-cases (from == c)) [
  | inl same ↦ ground (arith, rw same at e)
  | inr other ↦ (other, code_in-none table c (rw other at e))
]

-- a letter of the printer means the code that it stands for
abbrev pub IsRead : ℕ → ℕ → Type 0
IsRead c letter = (code_in meanings letter ≡ some c) × (is_line_end letter ≡ false)

pub letters-IsRead : All (λ e. IsRead e.0 e.1) letters
unfolding code_in
letters-IsRead = (
  (refl, refl),
  (
    (refl, refl),
    (
      (refl, refl),
      ((refl, refl), ((refl, refl), ((refl, refl), ((refl, refl), ((refl, refl), tt))))),
    ),
  ),
)

unescape-plain :
    (c : ℕ) (text : Codes) → (c == backslash) ≡ false → unescape (c ∷ text) ≡ c ∷ unescape text
unfolding unescape
unescape-plain c [] h = refl
unescape-plain c (letter ∷ text) h = rw h refl

unescape-letter :
    (c letter : ℕ) (text : Codes)
    → IsRead c letter
    → unescape (backslash ∷ letter ∷ text) ≡ c ∷ unescape text
unfolding unescape
unescape-letter c letter text (means, stays) = rw (stays, means) refl

unescape-escaped :
    (c : ℕ) (text : Codes) (found : Option ℕ)
    → code_in letters c ≡ found
    → unescape (escaped found c text) ≡ c ∷ unescape text
unescape-escaped c text none e =
    let other : (backslash == c) ≡ false = (code_in-none letters c e).1.1.1.1.1.1.1.0 in
    unescape-plain c text (ground (arith, other))
unescape-escaped c text (some letter) e =
    unescape-letter c letter text (code_in-All IsRead letters c letter letters-IsRead e)

unescape-escape : (text : Codes) → unescape (escape text) ≡ text
unfolding escape unescape
unescape-escape [] = refl
unescape-escape (c ∷ text) =
    unescape-escaped c (escape text) (code_in letters c) refl
    ∙ ap (λ t. c ∷ t) (unescape-escape text)

take_front {ℓ} : {A : Type ℓ} (xs ys : List A) → take (length xs) (xs ++ ys) ≡ xs
take_front [] ys = refl
take_front (x ∷ xs) ys = ap (λ l. x ∷ l) (take_front xs ys)

get_elem?_end {ℓ} :
    {A : Type ℓ} (xs : List A) (x : A) → get_elem? (xs ++ x ∷ []) (length xs) ≡ some x
get_elem?_end [] x = refl
get_elem?_end (y ∷ xs) x = get_elem?_end xs x

pub unquoted-quoted : (text : Codes) → unquoted (quoted_text text) ≡ some text
unfolding unquoted quoted_text
unquoted-quoted text =
    let inner = escape text in
    let long : length (inner ++ quote ∷ []) ≡ length inner + 1 = length-append inner (quote ∷ []) in
    let last : length (quote ∷ inner ++ quote ∷ []) - 1 ≡ suc (length inner) =
      omega (arith, long) in
    let some_more : ltb (suc (length inner)) 1 ≡ false = ground arith in
    let front : suc (length inner) - 1 ≡ length inner = omega arith in
    rw (last, some_more, get_elem?_end inner quote, front, take_front inner (quote ∷ []))
      (ap some (unescape-escape text))
