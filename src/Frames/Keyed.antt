-- ===== src/Frames/Keyed.antt =====
-- A call of a function with keywords.
use lisptc.Prelude.{
  ℕ, zero, suc, ◌+◌, ◌-◌, ◌≤◌, ◌≡◌, refl, ap, ◌∙◌, String, true, false, some, List, [], ◌∷◌, ◌++◌,
  map, length, set, drop, replicate, ltb, arith, All,
}
use lisptc.Prelude.Result.{ok}
use lisptc.Value.{Value, null, key, array_to_list}
use lisptc.Frames.{
  Func, is_key, take_values, required, offset_of, mem, below, give, keyed_frame, has_keys,
  make_frame, starts_pairs,
}
use lisptc.Frames.Plain.{as_list-list}
use lisptc.Frames.Slots.{
  IsOnce, with_pair, set-append, offset_of-drop, set-map, IsOnce-drop, Covers, Covers-more,
  Covers-below,
}

-- keywords with their values, as arguments
abbrev pub spell : List (String × Value) → List Value
spell [] = []
spell ((name, x) ∷ pairs) = key name ∷ x ∷ spell pairs

abbrev pub AllPlain : List Value → Type 0
AllPlain xs = All (λ x. is_key x ≡ false) xs

-- each keyword is one of the function's, and its slot is not taken, also by one in front of it
abbrev pub IsFree : Func → List ℕ → List (String × Value) → Type 0
IsFree f taken [] = Unit
IsFree f taken ((name, x) ∷ pairs) =
    (at : ℕ) × (offset_of name f.keys ≡ some at)
    × (mem (required f + at) taken ≡ false)
    × IsFree f ((required f + at) ∷ taken) pairs

-- the value that the pairs give to a keyword, or else what `g` gives
abbrev pub given : List (String × Value) → (String → Value) → String → Value
given [] g = g
given ((name, x) ∷ pairs) g = given pairs (with_pair name x g)

take_values-spell :
    (n : ℕ) (pairs : List (String × Value))
    → take_values n (array_to_list (spell pairs)) ≡ ok ([], array_to_list (spell pairs))
unfolding take_values array_to_list
take_values-spell zero pairs = refl
take_values-spell (suc n) [] = refl
take_values-spell (suc n) ((name, x) ∷ pairs) = refl

take_values-list :
    (n : ℕ) (xs : List Value) (pairs : List (String × Value))
    → AllPlain xs
    → length xs ≤ n
    → take_values n (array_to_list (xs ++ spell pairs)) ≡ ok (xs, array_to_list (spell pairs))
unfolding take_values array_to_list
take_values-list n [] pairs h long = take_values-spell n pairs
take_values-list zero (x ∷ xs) pairs h long = ground arith
take_values-list (suc n) (x ∷ xs) pairs (plain, h) long =
    rw
      (plain, as_list-list (xs ++ spell pairs), take_values-list n xs pairs h (omega (arith, long)))
      refl

give_slot :
    (f : Func) (xs : List Value) (d at : ℕ) (name : String) (x : Value) (g : String → Value)
    → required f + d ≡ length xs
    → length xs ≤ required f + at
    → IsOnce f.keys
    → offset_of name f.keys ≡ some at
    → set (xs ++ map g (drop d f.keys)) (required f + at) x
      ≡ xs ++ map (with_pair name x g) (drop d f.keys)
give_slot f xs d at name x g span free once found =
    let i = at - d in
    let e : at ≡ d + i = omega (arith, span, free) in
    let place : required f + at ≡ length xs + i = omega (arith, span, free) in
    rw (place, set-append xs (map g (drop d f.keys)) i x)
      (ap (λ l. xs ++ l)
        (set-map name x g (drop d f.keys) i (IsOnce-drop d f.keys once)
          (offset_of-drop d i name f.keys (found ∙ ap some e))))

give-spell :
    (f : Func) (taken : List ℕ) (xs : List Value) (d : ℕ) (pairs : List (String × Value))
    (g : String → Value)
    → required f + d ≡ length xs
    → Covers (length xs) taken
    → IsOnce f.keys
    → IsFree f taken pairs
    → give f taken (xs ++ map g (drop d f.keys)) (array_to_list (spell pairs))
      ≡ ok (xs ++ map (given pairs g) (drop d f.keys))
unfolding give array_to_list
give-spell f taken xs d [] g span covers once free = refl
give-spell f taken xs d ((name, x) ∷ pairs) g span covers once (at, found, empty, free) =
    rw
      (
        found,
        empty,
        as_list-list (spell pairs),
        give_slot f xs d at name x g span (covers (required f + at) empty) once found,
      )
      (give-spell f ((required f + at) ∷ taken) xs d pairs (with_pair name x g) span
        (Covers-more (length xs) (required f + at) taken covers) once free)

map-null :
    (keys : List String) (n : ℕ)
    → length keys ≡ n
    → replicate n null ≡ map (λ (_ : String). null) keys
map-null [] zero h = refl
map-null [] (suc n) h = ground arith
map-null (k ∷ keys) zero h = ground arith
map-null (k ∷ keys) (suc n) h =
    let later : length keys ≡ n = omega (arith, h) in ap (λ l. null ∷ l) (map-null keys n later)

length-drop {ℓ} : {A : Type ℓ} (n : ℕ) (xs : List A) → length (drop n xs) ≡ length xs - n
length-drop zero xs = omega arith
length-drop (suc n) [] = omega arith
length-drop (suc n) (x ∷ xs) = omega (arith, length-drop n xs)

required_def : (f : Func) → required f ≡ f.fixed - length f.keys
unfolding required
required_def f = refl

starts_pairs-spell :
    (pairs : List (String × Value)) → starts_pairs (array_to_list (spell pairs)) ≡ true
unfolding array_to_list
starts_pairs-spell [] = refl
starts_pairs-spell ((name, x) ∷ pairs) = refl

-- A function with keywords, called with values in front of keywords, gets the values in their places
-- and then, for each of its keywords that no value stands for, what the call gives to it, or `null`:
-- for values at least as many as the arguments that are not keywords, and keywords of the function
-- that no value or earlier keyword of the call stands for.
pub make_frame-spell :
    (f : Func) (xs : List Value) (pairs : List (String × Value))
    → has_keys f.keys ≡ true
    → IsOnce f.keys
    → length f.keys ≤ f.fixed
    → AllPlain xs
    → required f ≤ length xs
    → length xs ≤ f.fixed
    → IsFree f (below (length xs)) pairs
    → make_frame f (array_to_list (xs ++ spell pairs))
      ≡ ok (xs ++ map (given pairs (λ _. null)) (drop (length xs - required f) f.keys))
unfolding make_frame keyed_frame
make_frame-spell f xs pairs keyed once fits plain enough short free =
    let d = length xs - required f in
    let needed : required f ≡ f.fixed - length f.keys = required_def f in
    let span : required f + d ≡ length xs = omega (arith, enough) in
    let rest : length (drop d f.keys) ≡ f.fixed - length xs =
      omega (arith, length-drop d f.keys, enough, short, fits, needed) in
    let reached : ltb (length xs) (required f) ≡ false = ground (arith, enough) in
    rw
      (
        keyed,
        take_values-list f.fixed xs pairs plain short,
        reached,
        starts_pairs-spell pairs,
        map-null (drop d f.keys) (f.fixed - length xs) rest,
      )
      (give-spell f (below (length xs)) xs d pairs (λ _. null) span (Covers-below (length xs)) once
        free)
