-- ===== src/Quasiquote/Correct.antt =====
-- The expansion of a template evaluates to the template with its holes filled.
use lisptc.Prelude.{ℕ, ◌≡◌, refl, ◌∙◌, true, false, Option, some, arith}
use lisptc.Value.{Value, null, sym, cell, arg}
use lisptc.Quasiquote.{
  is_sym, list2, join_parts, wrap_append, qq_quote, expand0_by, expand2_by, qq_expand1, qq_expand,
}
use lisptc.Quasiquote.Meaning.{
  stop, copy, none_left, next, last, Evaluator, is_literal, Fills, hole, splice, pair, symbol,
  literal,
}
use lisptc.Quasiquote.Parts.{Joined, join_lem, wrap_append_lem}

abbrev list1 : Value → Value
list1 e = cell (sym "list") (cell e null)

-- `qqExpand0` and `qqExpand2` on a cell whose head is no quoting symbol
expand0_cell :
    (f : ℕ → Option Value) (a d t : Value)
    → is_sym "unquote" a ≡ false
    → f 0 ≡ some t
    → expand0_by f (cell a d) 0 ≡ some (wrap_append t)
unfolding expand0_by
expand0_cell f a d t n e = rw (n, e)

expand2_cell :
    (f : ℕ → Option Value) (a d e : Value)
    → (is_sym "unquote" a ≡ false)
      × (is_sym "unquote-splicing" a ≡ false)
      × (is_sym "quasiquote" a ≡ false)
    → expand0_by f (cell a d) 0 ≡ some e
    → expand2_by f (cell a d) 0 ≡ some (list1 e)
unfolding expand2_by
expand2_cell f a d e (n1, n2, n3) e1 = rw (n1, n2, n3, e1)

splice_expand2 :
    (e : Value)
    → let a = cell (sym "unquote-splicing") (cell e null) in expand2_by (qq_expand1 a) a 0 ≡ some e
unfolding expand2_by
splice_expand2 e = refl

module _ (E : Evaluator) where
  open E use {ev, ev-literal, ev-quote, ev-list, ev-cons, ev-append}

  -- the expansions of a template, each with its value
  abbrev Ends0 : Value → Value → Type 0
  Ends0 x v = (e : Value) × (expand0_by (qq_expand1 x) x 0 ≡ some e) × (ev e ≡ some v)

  literal_expand1 : (x : Value) → is_literal x ≡ true → qq_expand1 x 0 ≡ some (cell x null)
  unfolding qq_expand1 qq_quote
  literal_expand1 (cell a d) h = cc
  literal_expand1 (sym s) h = cc
  literal_expand1 (arg l o s) h = cc
  literal_expand1 _ h = refl

  literal_expand0 : (x : Value) → is_literal x ≡ true → expand0_by (qq_expand1 x) x 0 ≡ some x
  unfolding expand0_by qq_quote
  literal_expand0 (cell a d) h = cc
  literal_expand0 (sym s) h = cc
  literal_expand0 (arg l o s) h = cc
  literal_expand0 _ h = refl

  literal_expand2 :
      (x : Value) → is_literal x ≡ true → expand2_by (qq_expand1 x) x 0 ≡ some (list1 x)
  unfolding expand0_by expand2_by qq_quote
  literal_expand2 (cell a d) h = cc
  literal_expand2 (sym s) h = cc
  literal_expand2 (arg l o s) h = cc
  literal_expand2 _ h = refl

  plain_head :
      {a u : Value}
      → Fills ev a u
      → (is_sym "unquote" a ≡ false)
        × (is_sym "unquote-splicing" a ≡ false)
        × (is_sym "quasiquote" a ≡ false)
  plain_head (hole e) = (refl, refl, refl)
  plain_head (splice e f k) = (refl, refl, refl)
  plain_head (pair f g) = (refl, refl, refl)
  plain_head (symbol h) = ground arith
  plain_head (literal {x} h) = literal_head x h
    where
      literal_head :
          (x : Value)
          → is_literal x ≡ true
          → (is_sym "unquote" x ≡ false)
            × (is_sym "unquote-splicing" x ≡ false)
            × (is_sym "quasiquote" x ≡ false)
      literal_head (sym s) h = cc
      literal_head _ h = (refl, refl, refl)

  ends0 : {x v : Value} → Fills ev x v → Joined E (qq_expand1 x 0) v → Ends0 x v
  ends0 (hole {e} h) j = (e, unfold expand0_by in refl, h)
  ends0 (splice h f k) (p, q, e1, r) =
      (wrap_append (cell p q), expand0_cell _ _ _ _ refl e1, wrap_append_lem E r)
  ends0 (pair f g) (p, q, e1, r) =
      (wrap_append (cell p q), expand0_cell _ _ _ _ (plain_head f).0 e1, wrap_append_lem E r)
  ends0 (symbol {s} h) j =
      (list2 (sym "quote") (sym s), unfold expand0_by qq_quote in refl, ev-quote (sym s))
  ends0 (literal {x} h) j = (x, literal_expand0 x h, ev-literal x h)

  ends2 :
      {x v : Value}
      → Fills ev x v
      → Joined E (qq_expand1 x 0) v
      → (e : Value) × (expand2_by (qq_expand1 x) x 0 ≡ some e) × (ev e ≡ some (cell v null))
  ends2 (hole {e} h) j = (list1 e, unfold expand2_by in refl, (ev-list _ _).1 (next h none_left))
  ends2 (splice h f k) j =
      let (e, e1, h') = ends0 (splice h f k) j in
      (list1 e, expand2_cell _ _ _ _ (refl, refl, refl) e1, (ev-list _ _).1 (next h' none_left))
  ends2 (pair f g) j =
      let (e, e1, h) = ends0 (pair f g) j in
      (list1 e, expand2_cell _ _ _ _ (plain_head f) e1, (ev-list _ _).1 (next h none_left))
  ends2 (symbol {s} h) j = (
    list1 (list2 (sym "quote") (sym s)),
    unfold expand0_by expand2_by qq_quote in refl,
    (ev-list _ _).1 (next (ev-quote (sym s)) none_left),
  )
  ends2 (literal {x} h) j =
      (list1 x, literal_expand2 x h, (ev-list _ _).1 (next (ev-literal x h) none_left))

  -- one step of `qqExpand1` on an item that neither opens nor closes a level
  expand1_cons :
      (a d h t : Value)
      → (is_sym "unquote" a ≡ false) × (is_sym "quasiquote" a ≡ false)
      → expand2_by (qq_expand1 a) a 0 ≡ some h
      → qq_expand1 d 0 ≡ some t
      → qq_expand1 (cell a d) 0 ≡ join_parts h t
  unfolding qq_expand1
  expand1_cons a d h t (n1, n2) e1 e2 = rw (n1, n2, e1, e2)

  expand1_lem : {x v : Value} → Fills ev x v → Joined E (qq_expand1 x 0) v
  expand1_lem (hole {e} h) = (e, null, unfold qq_expand1 in refl, last h)
  expand1_lem (splice {e} {d} h f k) =
      let (p, q, e1, r) = expand1_lem f in
      let (p', q', e2, r') = join_lem E e p q h r k in
      (p', q', expand1_cons _ d e _ (refl, refl) (splice_expand2 e) e1 ∙ e2, r')
  expand1_lem (pair {a} {d} f g) =
      let (h, e2, eh) = ends2 f (expand1_lem f) in
      let (p, q, e1, r) = expand1_lem g in
      let (p', q', e3, r') = join_lem E h p q eh r (copy stop) in
      let heads = plain_head f in (p', q', expand1_cons a d h _ (heads.0, heads.2) e2 e1 ∙ e3, r')
  expand1_lem (symbol {s} h) = (
    list2 (sym "quote") (sym s),
    null,
    unfold qq_expand1 qq_quote in refl,
    last (ev-quote (sym s)),
  )
  expand1_lem (literal {x} h) = (x, null, literal_expand1 x h, last (ev-literal x h))

  -- If filling the holes of a template (unquotes of one argument, splices into a list, no inner
  -- quasiquote) gives a value, then qqExpand succeeds on it, and every evaluator that treats
  -- literals, quote, list, cons and append as documented computes that value from the expansion.
  pub qq_expand-Fills :
      {x v : Value} → Fills ev x v → (e : Value) × (qq_expand x ≡ some e) × (ev e ≡ some v)
  unfolding qq_expand
  qq_expand-Fills f = ends0 f (expand1_lem f)
