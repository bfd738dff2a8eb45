-- ===== src/Frames/Plain.antt =====
-- A call of a function without keywords.
use lisptc.Prelude.{
  ℕ, zero, suc, ◌≡◌, refl, ap, sym, ◌∙◌, true, false, none, some, List, [], ◌∷◌, ◌++◌, length, take,
  drop, leb, ◌≤◌, ◌<◌, ltb, ◌==◌, if◌then◌else◌, arith, Bool-cases, inl, inr,
}
use lisptc.Prelude.Result.{ok, err}
use lisptc.Value.{Value, array_to_list}
use lisptc.Frames.{
  Func, arity_not_matched, Called, as_list, arity_error, take_fixed, is_null, finish_plain,
  plain_frame, make_frame, has_keys,
}

arity_error-list : (xs : List Value) → arity_error (array_to_list xs) ≡ arity_not_matched
unfolding arity_error array_to_list
arity_error-list [] = refl
arity_error-list (x ∷ xs) = arity_error-list xs

pub as_list-list : (xs : List Value) → as_list (array_to_list xs) ≡ ok (array_to_list xs)
unfolding array_to_list
as_list-list [] = refl
as_list-list (x ∷ xs) = refl

take_fixed-list :
    (n : ℕ) (xs : List Value)
    → n ≤ length xs
    → take_fixed n (array_to_list xs) ≡ ok (some (take n xs, array_to_list (drop n xs)))
unfolding take_fixed array_to_list
take_fixed-list zero xs h = refl
take_fixed-list (suc n) [] h = ground arith
take_fixed-list (suc n) (x ∷ xs) h =
    rw (as_list-list xs, take_fixed-list n xs (omega (arith, h))) refl

take_fixed-short :
    (n : ℕ) (xs : List Value) → length xs < n → take_fixed n (array_to_list xs) ≡ ok none
unfolding take_fixed array_to_list
take_fixed-short zero xs h = ground arith
take_fixed-short (suc n) [] h = refl
take_fixed-short (suc n) (x ∷ xs) h =
    rw (as_list-list xs, take_fixed-short n xs (omega (arith, h))) refl

take_all {ℓ} : {A : Type ℓ} (xs : List A) → take (length xs) xs ≡ xs
take_all [] = refl
take_all (x ∷ xs) = ap (λ l. x ∷ l) (take_all xs)

drop_all {ℓ} : {A : Type ℓ} (xs : List A) → drop (length xs) xs ≡ []
drop_all [] = refl
drop_all (x ∷ xs) = drop_all xs

is_null-drop :
    (n : ℕ) (xs : List Value) → n < length xs → is_null (array_to_list (drop n xs)) ≡ false
unfolding array_to_list
is_null-drop n [] h = ground arith
is_null-drop zero (x ∷ xs) h = refl
is_null-drop (suc n) (x ∷ xs) h = is_null-drop n xs (omega (arith, h))

-- what the frame of a call with these arguments should be
abbrev pub plain : Func → List Value → Called (List Value)
plain f xs =
    if f.has_rest
    then if leb f.fixed (length xs)
      then ok (take f.fixed xs ++ array_to_list (drop f.fixed xs) ∷ [])
      else err arity_not_matched
    else if length xs == f.fixed
    then ok xs
    else err arity_not_matched

finish-rest :
    (f : Func) (supplied left : Value) (values : List Value)
    → f.has_rest ≡ true
    → finish_plain f supplied (some (values, left)) ≡ ok (values ++ left ∷ [])
finish-rest f supplied left values e = rw e refl

finish-exact :
    (f : Func) (xs : List Value)
    → f.has_rest ≡ false
    → f.fixed ≡ length xs
    → finish_plain f (array_to_list xs) (some (take f.fixed xs, array_to_list (drop f.fixed xs)))
      ≡ ok xs
unfolding array_to_list
finish-exact f xs e n = rw (e, n, drop_all xs, take_all xs) refl

finish-more :
    (f : Func) (xs : List Value)
    → f.has_rest ≡ false
    → f.fixed < length xs
    → finish_plain f (array_to_list xs) (some (take f.fixed xs, array_to_list (drop f.fixed xs)))
      ≡ err arity_not_matched
finish-more f xs e h = rw (e, is_null-drop f.fixed xs h, arity_error-list xs) refl

pub plain-short :
    (f : Func) (xs : List Value) → length xs < f.fixed → plain f xs ≡ err arity_not_matched
plain-short f xs h = ground arith

pub plain-rest :
    (f : Func) (xs : List Value)
    → f.has_rest ≡ true
    → f.fixed ≤ length xs
    → plain f xs ≡ ok (take f.fixed xs ++ array_to_list (drop f.fixed xs) ∷ [])
plain-rest f xs e h = ground arith

pub plain-exact :
    (f : Func) (xs : List Value) → f.has_rest ≡ false → f.fixed ≡ length xs → plain f xs ≡ ok xs
plain-exact f xs e h = ground arith

pub plain-more :
    (f : Func) (xs : List Value)
    → f.has_rest ≡ false
    → f.fixed < length xs
    → plain f xs ≡ err arity_not_matched
plain-more f xs e h = ground arith

plain_frame-list : (f : Func) (xs : List Value) → plain_frame f (array_to_list xs) ≡ plain f xs
unfolding plain_frame
plain_frame-list f xs = elim (Bool-cases (ltb (length xs) f.fixed)) [
  | inl less ↦
      let short : length xs < f.fixed = ground (arith, less) in
      rw (take_fixed-short f.fixed xs short, plain-short f xs short) (ap err (arity_error-list xs))
  | inr more ↦
      let long : f.fixed ≤ length xs = ground (arith, more) in
      rw (take_fixed-list f.fixed xs long) (elim (Bool-cases f.has_rest) [
        | inl rest ↦ finish-rest f (array_to_list xs) _ _ rest ∙ sym (plain-rest f xs rest long)
        | inr bare ↦ elim (Bool-cases (length xs == f.fixed)) [
          | inl equal ↦
              let same : f.fixed ≡ length xs = ground (arith, equal) in
              finish-exact f xs bare same ∙ sym (plain-exact f xs bare same)
          | inr other ↦
              let above : f.fixed < length xs = ground (arith, other, long) in
              finish-more f xs bare above ∙ sym (plain-more f xs bare above)
        ]
      ])
]

-- A function without keywords takes exactly its parameters, or at least those in front of its rest
-- parameter, which gets the list of the others; with any other number of arguments it is not called.
pub make_frame-plain :
    (f : Func) (xs : List Value)
    → has_keys f.keys ≡ false
    → make_frame f (array_to_list xs) ≡ plain f xs
unfolding make_frame
make_frame-plain f xs no_keys = rw no_keys (plain_frame-list f xs)
