-- ===== src/Reader/Items.antt =====
-- How the reader goes through marks, items and the end of a list.
use mathlib.Core.Path.{subst}
use lisptc.Prelude.{
  ℕ, zero, suc, ◌+◌, ◌*◌, ◌≤◌, String, true, false, ◌≡◌, refl, ap, sym, ◌∙◌, some, List, [], ◌∷◌,
  ◌++◌, length, length-append, append_assoc, arith, Bool-cases, inl, inr, ◌===◌, ===_iff,
}
use lisptc.Prelude.Result.{ok, err, ◌>>=◌, >>=_assoc}
use lisptc.Value as V
use lisptc.Value.{Value, null, truth, number, bigint, text, key, cell, arg, object}
use lisptc.Reader.{
  Token, token, Source, Read, next_token, next, is_sym, atom, quotes, mark_of, syntax, choose,
  quoted, parse_expression, parse_list_body, prefix_of,
}

abbrev pub source : List Token → ℕ → Source
source tokens line = record { tokens = tokens; line = line }

abbrev pub Reads : List Token → Value → Type 0
Reads ts x =
    (n : ℕ) (rest : List Token) (line : ℕ)
    → 2 * length ts ≤ n
    → (next_token (ts ++ rest) line >>= λ p. parse_expression n p.0 p.1) ≡ ok (x, source rest line)

-- what follows an item in a list
abbrev pub after_item : ℕ → Value → Source → Read (Value × Source)
after_item n x s = next s >>= λ q.
    choose (is_sym "." q.0)
      (λ _. next q.1 >>= λ u. parse_expression n u.0 u.1 >>= λ v. next v.1 >>= λ w.
        choose (is_sym ")" w.0) (λ _. ok (cell x v.0, w.1)) (λ _. err (syntax w.1.line)))
      (λ _. parse_list_body n q.0 q.1 >>= λ u. ok (cell x u.0, u.1))

abbrev pub RestReads : List Token → Value → Type 0
RestReads ts d =
    (n : ℕ) (x : Value) (rest : List Token) (line : ℕ)
    → 2 * length ts ≤ n
    → after_item n x (source (ts ++ rest) line) ≡ ok (cell x d, source rest line)

abbrev pub IsItem : Value → Type 0
IsItem t = (is_sym ")" t ≡ false) × (is_sym "." t ≡ false)

abbrev IsFirst : List Token → Type 0
IsFirst ts = (t : Value) × (more : List Token) × (ts ≡ token t ∷ more) × IsItem t

pub atom-IsItem : (t : Value) → mark_of t ≡ atom → IsItem t
unfolding mark_of
atom-IsItem t h = ground arith

abbrev pub Quotes : String → String → Type 0
Quotes p name = (mark_of (V.sym p) ≡ quotes name) × IsItem (V.sym p)

found-Quotes :
    (name other mark p : String)
    → (name === other) ≡ true
    → some mark ≡ some p
    → Quotes mark other
    → (long : String) × (V.sym name ≡ V.sym long) × Quotes p long
found-Quotes name other mark p same e q =
    let here : mark ≡ p = ground (arith, e) in
    (other, ap V.sym ((===_iff name other).0 same), subst (λ m. Quotes m other) here q)

pub prefix-Quotes :
    (x : Value) (p : String)
    → prefix_of x ≡ some p
    → (name : String) × (x ≡ V.sym name) × Quotes p name
unfolding prefix_of mark_of
prefix-Quotes (V.sym name) p h = elim (Bool-cases (name === "quote")) [
  | inl e ↦ found-Quotes name "quote" "'" p e (rw e at h) (refl, (refl, refl))
  | inr a ↦ elim (Bool-cases (name === "quasiquote")) [
    | inl e ↦ found-Quotes name "quasiquote" "`" p e (rw (a, e) at h) (refl, (refl, refl))
    | inr b ↦ elim (Bool-cases (name === "unquote")) [
      | inl e ↦ found-Quotes name "unquote" "," p e (rw (a, b, e) at h) (refl, (refl, refl))
      | inr c ↦ elim (Bool-cases (name === "unquote-splicing")) [
        | inl e ↦
            found-Quotes name "unquote-splicing" ",@" p e (rw (a, b, c, e) at h)
              (refl, (refl, refl))
        | inr d ↦ ground (arith, rw (a, b, c, d) at h)
      ]
    ]
  ]
]
prefix-Quotes _ p h = ground arith

pub atom-Reads : (x : Value) → mark_of x ≡ atom → Reads (token x ∷ []) x
unfolding next_token parse_expression
atom-Reads x h zero rest line enough = ground arith
atom-Reads x h (suc n) rest line enough = rw h refl

pub quoted-Reads :
    (p name : String) (ts : List Token) (x : Value)
    → mark_of (V.sym p) ≡ quotes name
    → Reads ts x
    → Reads (token (V.sym p) ∷ ts) (quoted name x)
unfolding next_token parse_expression
quoted-Reads p name ts x h reads zero rest line enough = ground arith
quoted-Reads p name ts x h reads (suc n) rest line enough = rw h (
    sym (
      >>=_assoc (next_token (ts ++ rest) line) (λ u. parse_expression n u.0 u.1)
        (λ u. ok (quoted name u.0, u.1)))
    ∙ ap (λ r. r >>= λ u. ok (quoted name u.0, u.1)) (reads n rest line (omega (arith, enough))))

body-Reads :
    (t : Value) (more us : List Token) (x d : Value)
    → Reads (token t ∷ more) x
    → IsItem t
    → RestReads us d
    → 1 ≤ length us
    → (n : ℕ) (rest : List Token) (line : ℕ) → 2 * length (token t ∷ more ++ us) ≤ n
    → parse_list_body n t (source (more ++ (us ++ rest)) line) ≡ ok (cell x d, source rest line)
unfolding next_token parse_list_body
body-Reads t more us x d reads item follows some_rest zero rest line enough = ground arith
body-Reads t more us x d reads item follows some_rest (suc n) rest line enough =
    let long : length (more ++ us) ≡ length more + length us = length-append more us in
    rw item.0 (
      ap (λ r. r >>= λ p. after_item n p.0 p.1)
        (reads n (us ++ rest) line (omega (arith, enough, long, some_rest)))
      ∙ follows n x rest line (omega (arith, enough, long)))

pub list-Reads :
    (t : Value) (more us : List Token) (x d : Value)
    → Reads (token t ∷ more) x
    → IsItem t
    → RestReads us d
    → 1 ≤ length us
    → Reads (token (V.sym "(") ∷ token t ∷ more ++ us) (cell x d)
unfolding next_token parse_expression mark_of
list-Reads t more us x d reads item follows some_rest zero rest line enough = ground arith
list-Reads t more us x d reads item follows some_rest (suc n) rest line enough =
    rw (append_assoc more us rest)
      (body-Reads t more us x d reads item follows some_rest n rest line (omega (arith, enough)))

pub null-RestReads : RestReads (token (V.sym ")") ∷ []) null
unfolding next_token parse_list_body
null-RestReads zero x rest line enough = ground arith
null-RestReads (suc n) x rest line enough = refl

pub cell-RestReads :
    (t : Value) (more us : List Token) (x d : Value)
    → Reads (token t ∷ more) x
    → IsItem t
    → RestReads us d
    → 1 ≤ length us
    → RestReads (token t ∷ more ++ us) (cell x d)
unfolding next_token
cell-RestReads t more us x d reads item follows some_rest n y rest line enough =
    rw (item.1, append_assoc more us rest)
      (ap (λ r. r >>= λ u. ok (cell y u.0, u.1))
        (body-Reads t more us x d reads item follows some_rest n rest line enough))

pub atom-RestReads :
    (x : Value)
    → mark_of x ≡ atom
    → RestReads (token (V.sym ".") ∷ token x ∷ token (V.sym ")") ∷ []) x
unfolding next_token parse_expression
atom-RestReads x h zero y rest line enough = ground arith
atom-RestReads x h (suc n) y rest line enough = rw h refl
