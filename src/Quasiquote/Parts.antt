-- ===== src/Quasiquote/Parts.antt =====
-- The steps of the expansion that merge and join parts keep the value of the `append` form.
use mathlib.Core.Path.{subst}
use mathlib.Core.Bool.{and-eq-true_iff}
use lisptc.Prelude.{
  String, ◌≡◌, refl, sym as flip, ap, ◌∙◌, ◌⊎◌, inl, inr, true, ◌&&◌, ◌||◌, Option, none, some,
  Bool-cases, ===_iff,
}
use lisptc.Value.{Value, null, sym, cell, is_cell}
use lisptc.Quasiquote.{
  qq_concat, qq_cons_cons, qq_merge, is_sym, is_null, has_head, cdr_of, join_parts, wrap_append,
}
use lisptc.Quasiquote.Meaning.{
  Append, stop, copy, Evals, none_left, next, Appends, last, onto, Evaluator,
}

Append-null : {x v : Value} → Append x null v → v ≡ x
Append-null stop = refl
Append-null (copy h) = cc (Append-null h)

Append-det : {x y v w : Value} → Append x y v → Append x y w → v ≡ w
Append-det stop stop = refl
Append-det (copy {a} h) (copy k) = ap (cell a) (Append-det h k)

Append-assoc : {x y z yz w v : Value} → Append x y w → Append y z yz → Append x yz v → Append w z v
Append-assoc stop k stop = k
Append-assoc (copy h) k (copy l) = copy (Append-assoc h k l)

is_sym→eq : (name : String) (x : Value) → is_sym name x ≡ true → x ≡ sym name
is_sym→eq name (sym s) h = ap sym ((===_iff s name).0 h)
is_sym→eq name _ h = cc

has_head→eq : (name : String) (x : Value) → has_head name x ≡ true → x ≡ cell (sym name) (cdr_of x)
has_head→eq name (cell a d) h = ap (λ b. cell b d) (is_sym→eq name a h)
has_head→eq name _ h = cc

is_null→eq : (x : Value) → is_null x ≡ true → x ≡ null
is_null→eq null h = refl
is_null→eq _ h = cc

concat_head :
    (h b c : Value)
    → has_head "list" h ≡ true
    → qq_concat (cdr_of h) b ≡ some c
    → qq_concat h b ≡ some (cell (sym "list") c)
unfolding qq_concat
concat_head (cell a d) b c listed e = rw (e, is_sym→eq "list" a listed)
concat_head _ b c listed e = cc

module _ (E : Evaluator) where
  open E use {ev, ev-literal, ev-quote, ev-list, ev-cons, ev-append}

  Append-total : {args hv : Value} (y : Value) → Evals ev args hv → (w : Value) × Append hv y w
  Append-total y none_left = (y, stop)
  Append-total y (next e h) = let (w, k) = Append-total y h in (_, copy k)

  concat_lem :
      {args bs hv bv w : Value}
      → Evals ev args hv
      → Evals ev bs bv
      → Append hv bv w
      → (c : Value) × (qq_concat args bs ≡ some c) × Evals ev c w
  unfolding qq_concat
  concat_lem {bs} none_left k stop = (bs, refl, k)
  concat_lem (next {a} e h) k (copy l) =
      let (c, e1, r) = concat_lem h k l in (cell a c, rw e1, next e r)

  cons_cons_lem :
      {args b hv bv w : Value}
      → Evals ev args hv
      → ev b ≡ some bv
      → Append hv bv w
      → (c : Value) × (qq_cons_cons args b ≡ some c) × (ev c ≡ some w)
  unfolding qq_cons_cons
  cons_cons_lem {b} none_left k stop = (b, refl, k)
  cons_cons_lem (next {a} {x} e h) k (copy {r} l) =
      let (c, e1, q) = cons_cons_lem h k l in
      (cell (sym "cons") (cell a (cell c null)), rw e1, ev-cons a c x r e q)

  -- what a merged head needs
  merged_Appends :
      {hv t0 t1 bv tv w m v : Value}
      → ev t0 ≡ some bv
      → Append hv bv w
      → ev m ≡ some w
      → Appends ev (cell t0 t1) tv
      → Append hv tv v
      → Appends ev (cell m t1) v
  merged_Appends {hv} {v} et hb em (last {x = tv} e) hv' =
      let same : tv ≡ _ = cc in
      last (em ∙ ap some (Append-det hb (subst (λ t. Append hv t v) same hv')))
  merged_Appends {hv} {w} et hb em (onto {x} e r k) hv' =
      let same : _ ≡ x = cc in onto em r (Append-assoc (subst (λ t. Append hv t w) same hb) k hv')

  merge_lem :
      (h t0 : Value) {hv bv : Value}
      → ev h ≡ some hv
      → ev t0 ≡ some bv
      → (qq_merge h t0 ≡ some none)
        ⊎ ((m w : Value) × (qq_merge h t0 ≡ some (some m)) × (ev m ≡ some w) × Append hv bv w)
  unfolding qq_merge
  merge_lem h t0 {hv} {bv} eh et = elim (Bool-cases (has_head "list" h)) [
    | inr other ↦ inl (rw other)
    | inl listed ↦
        let args = (ev-list (cdr_of h) hv).0 (rw (← has_head→eq "list" h listed) eh) in
        let (w, joined) = Append-total bv args in
        elim (Bool-cases (has_head "list" t0)) [
          | inl both ↦
              let items = (ev-list (cdr_of t0) bv).0 (rw (← has_head→eq "list" t0 both) et) in
              let (c, e1, r) = concat_lem args items joined in
              inr (
                cell (sym "list") c,
                w,
                rw (listed, both, concat_head h _ c listed e1),
                (ev-list c w).1 r,
                joined,
              )
          | inr one ↦ elim (Bool-cases (is_cell (cdr_of h))) [
            | inl some_args ↦
                let (c, e1, r) = cons_cons_lem args et joined in
                inr (c, w, rw (listed, one, some_args, e1), r, joined)
            | inr empty ↦ inl (rw (listed, one, empty))
          ]
        ]
  ]

  -- `r` is the argument list of an `append` form with value `v`
  abbrev pub Joined : Option Value → Value → Type 0
  Joined r v = (p q : Value) × (r ≡ some (cell p q)) × Appends ev (cell p q) v

  join_one :
      {h hv t0 t1 tv v : Value}
      → ev h ≡ some hv
      → is_null t0 ≡ true
      → is_null t1 ≡ true
      → Appends ev (cell t0 t1) tv
      → Append hv tv v
      → Appends ev (cell h null) v
  join_one {hv} {v} eh n0 n1 (last {a = t0} {x} e) k =
      let nil_value : x ≡ null = cc (ap ev (is_null→eq t0 n0), ev-literal null refl) in
      last (eh ∙ ap some (flip (Append-null (subst (λ t. Append hv t v) nil_value k))))
  join_one eh n0 n1 (onto e r l) k = cc

  head_of_Appends : {t0 t1 tv : Value} → Appends ev (cell t0 t1) tv → (x : Value) × (ev t0 ≡ some x)
  head_of_Appends (last {x} e) = (x, e)
  head_of_Appends (onto {x} e r l) = (x, e)

  pub join_lem :
      (h t0 t1 : Value) {hv tv v : Value}
      → ev h ≡ some hv
      → Appends ev (cell t0 t1) tv
      → Append hv tv v
      → Joined (join_parts h (cell t0 t1)) v
  unfolding join_parts
  join_lem h t0 t1 eh r k = elim (Bool-cases (is_null t0 && is_null t1)) [
    | inl both ↦
        let (n0, n1) = (and-eq-true_iff _ _).0 both in (h, null, rw both, join_one eh n0 n1 r k)
    | inr some_left ↦
        let (x, ex) = head_of_Appends r in
        elim (merge_lem h t0 eh ex) [
          | inl apart ↦ (h, cell t0 t1, rw (some_left, apart), onto eh r k)
          | inr (m, w, e1, em, l) ↦ (m, t1, rw (some_left, e1), merged_Appends ex l em r k)
        ]
  ]

  pub wrap_append_lem :
      {p q v : Value} → Appends ev (cell p q) v → ev (wrap_append (cell p q)) ≡ some v
  unfolding wrap_append
  wrap_append_lem {v} (last {a} e) = elim (Bool-cases (has_head "list" a || has_head "cons" a)) [
    | inl whole ↦ rw whole e
    | inr other ↦ rw other (ev-append (cell a null) v (last e))
  ]
  wrap_append_lem {v} (onto e r k) = ev-append _ v (onto e r k)
