-- ===== src/Frames/Lengths.antt =====
-- The number of slots of a frame.
use mathlib.Core.Path.{subst}
use lisptc.Prelude.{
  ℕ, zero, suc, ◌+◌, ◌-◌, ◌≤◌, ◌≡◌, refl, ap, sym, ◌∙◌, Bool, true, false, not, Option, none, some,
  List, [], ◌∷◌, ◌++◌, length, length-append, length-set, set, replicate, ltb, ◌||◌, if◌then◌else◌,
  arith, Bool-cases, inl, inr,
}
use lisptc.Prelude.Result.{ok, err, OnOk, OnOk-if, OnOk-bind, OnOk-then}
use lisptc.Value.{Value, null, key, cell}
use lisptc.Frames.{
  Func, Called, as_list, arity_error, with_first, take_fixed, finish_plain, plain_frame, is_null,
  is_key, starts_pairs, take_values, required, mem, below, offset_of, on_slot, give, finish_keyed,
  keyed_frame, has_keys, make_frame,
}

-- one for each parameter, the rest parameter with them
abbrev pub slots : Func → ℕ
slots f = if f.has_rest then suc f.fixed else f.fixed

abbrev pub HasLength : ℕ → List Value → Type 0
HasLength n xs = length xs ≡ n

abbrev TakesAll : ℕ → Option (List Value × Value) → Type 0
TakesAll n none = Unit
TakesAll n (some (values, left)) = length values ≡ n

with_first-TakesAll :
    (n : ℕ) (x : Value) (o : Option (List Value × Value))
    → TakesAll n o
    → TakesAll (suc n) (with_first x o)
with_first-TakesAll n x none h = tt
with_first-TakesAll n x (some (values, left)) h = ap suc h

take_fixed-TakesAll : (n : ℕ) (x : Value) → OnOk (TakesAll n) (take_fixed n x)
unfolding take_fixed
take_fixed-TakesAll zero x = refl
take_fixed-TakesAll (suc n) (cell x rest) = OnOk-then (TakesAll (suc n)) (as_list rest) _ (λ _.
    OnOk-bind (TakesAll n) (TakesAll (suc n)) (take_fixed n rest) _ (take_fixed-TakesAll n rest)
      (λ taken h. with_first-TakesAll n x taken h))
take_fixed-TakesAll (suc n) _ = tt

finish_plain-HasLength :
    (f : Func) (x : Value) (o : Option (List Value × Value))
    → TakesAll f.fixed o
    → OnOk (HasLength (slots f)) (finish_plain f x o)
finish_plain-HasLength f x none h = tt
finish_plain-HasLength f x (some (values, left)) h = go f.has_rest
  where
    go :
        (has_rest : Bool)
        → OnOk (HasLength (if has_rest then suc f.fixed else f.fixed)) (
            if has_rest
            then ok (values ++ left ∷ [])
            else if is_null left
            then ok values
            else err (arity_error x))
    go true = length-append values (left ∷ []) ∙ omega (arith, h)
    go false = OnOk-if (HasLength f.fixed) (is_null left) _ _ h tt

abbrev IsAtMost : ℕ → List Value × Value → Type 0
IsAtMost n (values, left) = length values ≤ n

take_values-IsAtMost : (n : ℕ) (x : Value) → OnOk (IsAtMost n) (take_values n x)
unfolding take_values
take_values-IsAtMost zero x = omega arith
take_values-IsAtMost (suc n) (cell x rest) =
    OnOk-if (IsAtMost (suc n)) (is_key x) _ _ (omega arith) (
      OnOk-then (IsAtMost (suc n)) (as_list rest) _ (λ _.
        OnOk-bind (IsAtMost n) (IsAtMost (suc n)) (take_values n rest) _
          (take_values-IsAtMost n rest) (λ (values, left) h. omega (arith, h))))
take_values-IsAtMost (suc n) _ = omega arith

on_slot-OnOk :
    (P : List Value → Type 0) (o : Option ℕ) (put : ℕ → Called (List Value))
    → ((at : ℕ) → OnOk P (put at))
    → OnOk P (on_slot o put)
on_slot-OnOk P none put h = tt
on_slot-OnOk P (some at) put h = h at

give-HasLength :
    (f : Func) (n : ℕ) (taken : List ℕ) (frame : List Value) (x : Value)
    → length frame ≡ n
    → OnOk (HasLength n) (give f taken frame x)
unfolding give
give-HasLength f n taken frame null h = h
give-HasLength f n taken frame (cell (key name) null) h =
    on_slot-OnOk (HasLength n) (offset_of name f.keys) _ (λ at. tt)
give-HasLength f n taken frame (cell (key name) (cell x rest)) h =
    on_slot-OnOk (HasLength n) (offset_of name f.keys) _ (λ at.
      OnOk-if (HasLength n) (mem (required f + at) taken) _ _ tt (
        OnOk-then (HasLength n) (as_list rest) _ (λ _.
          give-HasLength f n ((required f + at) ∷ taken) (set frame (required f + at) x) rest
            (length-set frame (required f + at) x ∙ h))))
give-HasLength f n taken frame (cell (key name) _) h =
    on_slot-OnOk (HasLength n) (offset_of name f.keys) _ (λ at. tt)
give-HasLength f n taken frame _ h = tt

length-replicate : {A : Type 0} (n : ℕ) (x : A) → length (replicate n x) ≡ n
length-replicate zero x = refl
length-replicate (suc n) x = ap suc (length-replicate n x)

finish_keyed-HasLength :
    (f : Func) (x : Value) (taken : List Value × Value)
    → IsAtMost f.fixed taken
    → OnOk (HasLength f.fixed) (finish_keyed f x taken)
finish_keyed-HasLength f x (values, left) h =
    let missing = f.fixed - length values in
    let filled : length (values ++ replicate missing null) ≡ f.fixed =
      length-append values (replicate missing null)
      ∙ omega (arith, h, length-replicate missing null) in
    OnOk-if (HasLength f.fixed) (ltb (length values) (required f) || not (starts_pairs left)) _ _ tt
      (give-HasLength f f.fixed (below (length values)) (values ++ replicate missing null) left
        filled)

-- If makeFrame makes a frame, then it has a slot for each parameter, and one for the rest parameter if there is
-- one; a function with keywords has none.
pub make_frame-HasLength :
    (f : Func) (x : Value)
    → (has_keys f.keys ≡ true → f.has_rest ≡ false)
    → OnOk (HasLength (slots f)) (make_frame f x)
unfolding make_frame plain_frame keyed_frame
make_frame-HasLength f x h = elim (Bool-cases (has_keys f.keys)) [
  | inl keyed ↦
      let no_rest : f.fixed ≡ slots f =
        ap (λ b. if b then suc f.fixed else f.fixed) (sym (h keyed)) in
      rw keyed (
        subst (λ n. OnOk (HasLength n) (keyed_frame f x)) no_rest
          (OnOk-bind (IsAtMost f.fixed) (HasLength f.fixed) (take_values f.fixed x)
            (finish_keyed f x) (take_values-IsAtMost f.fixed x) (finish_keyed-HasLength f x)))
  | inr plain ↦ rw plain (
      OnOk-bind (TakesAll f.fixed) (HasLength (slots f)) (take_fixed f.fixed x) (finish_plain f x)
        (take_fixed-TakesAll f.fixed x) (finish_plain-HasLength f x))
]
