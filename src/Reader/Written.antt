-- ===== src/Reader/Written.antt =====
-- What is printed is read back.
use mathlib.Core.Option.{some-injective}
use package.text.Mathlib.Text.{starts_with}
use lisptc.Prelude.{
  ℕ, ◌+◌, ◌*◌, ◌≤◌, String, ◌≡◌, refl, sym, ap, ◌∙◌, false, Option, none, some, List, [], ◌∷◌, ◌++◌,
  length, length-append, arith,
}
use lisptc.Prelude.Result.{ok}
use lisptc.Value as V
use lisptc.Value.{Value, null, truth, number, bigint, text, key, cell, arg, object}
use lisptc.Reader.{
  Token, token, atom, mark_of, read, prefix_of, only, abbreviated, after_prefix, str, str_only,
  str_rest,
}
use lisptc.Reader.Items.{
  source, Reads, RestReads, IsItem, atom-IsItem, prefix-Quotes, atom-Reads, quoted-Reads,
  list-Reads, null-RestReads, cell-RestReads, atom-RestReads,
}

-- the tokens of a value start with one that is no end of a list
abbrev Starts : List Token → Value → Type 0
Starts ts x =
    (t : Value) × (more : List Token) × (ts ≡ token t ∷ more) × IsItem t × Reads (token t ∷ more) x

abbrev RestStarts : List Token → Value → Type 0
RestStarts us d = RestReads us d × (1 ≤ length us)

rest_of_cell :
    (ts us : List Token) (y e : Value)
    → Starts ts y
    → RestStarts us e
    → RestStarts (ts ++ us) (cell y e)
rest_of_cell ts us y e (t, more, same, item, reads) (follows, some_rest) = rw same (
  cell-RestReads t more us y e reads item follows some_rest,
  omega (arith, length-append more us),
)

atom-Starts : (x : Value) → mark_of x ≡ atom → Starts (token x ∷ []) x
atom-Starts x h = (x, [], refl, atom-IsItem x h, atom-Reads x h)

plain-Starts :
    (ts us : List Token) (x d : Value)
    → Starts ts x
    → RestStarts us d
    → Starts (token (V.sym "(") ∷ ts ++ us) (cell x d)
plain-Starts ts us x d (t, more, e, item, reads) (follows, some_rest) = (
  V.sym "(",
  ts ++ us,
  refl,
  (refl, refl),
  rw e (list-Reads t more us x d reads item follows some_rest),
)

Starts-Reads : (ts : List Token) (x : Value) → Starts ts x → Reads ts x
Starts-Reads ts x (t, more, e, item, reads) = rw e reads

-- The text of an atom stands for the atom: a name is not cut in two and is no number, the reader finds the
-- end of a text. There are no resolved variables and host values, and symbols are no marks and do not begin
-- with an `@`.
module _ (spelled : Value → List Token) where
  abbrev pub IsSpelled : Value → Type 0
  IsSpelled x = spelled x ≡ token x ∷ []

  abbrev pub IsReadable : Value → Type 0
  IsReadable (V.sym name) =
      IsSpelled (V.sym name) × (mark_of (V.sym name) ≡ atom) × (starts_with name "@" ≡ false)
  IsReadable (arg _ _ _) = ⊥
  IsReadable (object _) = ⊥
  IsReadable (cell x rest) = IsReadable x × IsReadable rest
  IsReadable x = IsSpelled x

  only-null :
      (e : Value) (written ts : String → List Token)
      → only e written ≡ some ts
      → (e ≡ null) × (written ≡ ts)
  only-null null written ts h = (refl, some-injective _ _ h)
  only-null _ written ts h = absurd cc

  after_prefix_lem :
      (x : Value) (written : List Token) (p : String)
      → IsReadable x
      → after_prefix spelled x written p ≡ token (V.sym p) ∷ written
  after_prefix_lem (V.sym name) written p (same, mark, plain) = rw plain refl
  after_prefix_lem (arg _ _ _) written p h = elim h [ ]
  after_prefix_lem (object _) written p h = elim h [ ]
  after_prefix_lem x written p h = refl

  -- what a prefix is followed by is the one item of a list
  abbrev IsOnly : Value → (String → List Token) → Type 0
  IsOnly d ts =
      (y : Value) × (us : List Token) × (d ≡ cell y null)
      × Starts us y
      × ((p : String) → ts p ≡ token (V.sym p) ∷ us)

  abbreviated-Starts :
      (x d : Value) (found : Option String) (single : Option (String → List Token))
      (plain : List Token)
      → prefix_of x ≡ found
      → ((ts : String → List Token) → single ≡ some ts → IsOnly d ts)
      → Starts plain (cell x d)
      → Starts (abbreviated found single plain) (cell x d)
  abbreviated-Starts x d none single plain e h starts = starts
  abbreviated-Starts x d (some p) none plain e h starts = starts
  abbreviated-Starts x d (some p) (some ts) plain e h starts =
      let (name, x_is, (marks, item)) = prefix-Quotes x p e in
      let (y, us, d_is, inner, behind_p) = h ts refl in
      rw (x_is, d_is, behind_p p)
        (V.sym p, us, refl, item, quoted-Reads p name us y marks (Starts-Reads us y inner))

  mutual
    unfolding str str_only str_rest mark_of

    str-Starts : (x : Value) → IsReadable x → Starts (str spelled x) x
    str-Starts (cell x d) (h, k) =
        abbreviated-Starts x d (prefix_of x) (str_only spelled d) _ refl (str_only-Starts d k) (
          plain-Starts (str spelled x) (str_rest spelled d) x d (str-Starts x h)
            (str_rest-Starts d k))
    str-Starts (V.sym name) (same, h, k) = rw same (atom-Starts (V.sym name) h)
    str-Starts (arg _ _ _) h = elim h [ ]
    str-Starts (object _) h = elim h [ ]
    str-Starts x h = rw h (atom-Starts x refl)

    str_only-Starts :
        (d : Value)
        → IsReadable d
        → (ts : String → List Token) → str_only spelled d ≡ some ts
        → IsOnly d ts
    str_only-Starts (cell y e) (h, k) ts written =
        let (e_is, same) = only-null e (after_prefix spelled y (str spelled y)) ts written in
        (
          y,
          str spelled y,
          ap (cell y) e_is,
          str-Starts y h,
          λ p. sym (ap (λ f. f p) same) ∙ after_prefix_lem y (str spelled y) p h,
        )
    str_only-Starts _ h ts written = absurd cc

    str_rest-Starts : (d : Value) → IsReadable d → RestStarts (str_rest spelled d) d
    str_rest-Starts null h = (null-RestReads, omega arith)
    str_rest-Starts (cell y e) (h, k) =
        rest_of_cell (str spelled y) (str_rest spelled e) y e (str-Starts y h) (str_rest-Starts e k)
    str_rest-Starts (V.sym name) (same, h, k) = rw same (atom-RestReads (V.sym name) h, omega arith)
    str_rest-Starts (arg _ _ _) h = elim h [ ]
    str_rest-Starts (object _) h = elim h [ ]
    str_rest-Starts x h = rw h (atom-RestReads x refl, omega arith)

-- Reading what is printed for a value without cycles gives the value back, and leaves what comes behind it:
-- for values without resolved variables and host values, each of whose atoms is printed as one token that
-- stands for it, and whose symbols are no marks of the reader and do not begin with an `@`, which a comma
-- before it would take.
pub read-str :
    (spelled : Value → List Token) (x : Value) (rest : List Token) (line : ℕ)
    → IsReadable spelled x
    → read (source (str spelled x ++ rest) line) ≡ ok (x, source rest line)
unfolding read
read-str spelled x rest line h =
    let ts = str spelled x in
    let long : length (ts ++ rest) ≡ length ts + length rest = length-append ts rest in
    Starts-Reads ts x (str-Starts spelled x h) (2 * length (ts ++ rest)) rest line
      (omega (arith, long))
