-- ===== src/Intent/Moved.antt =====
-- Where a todo goes that is moved.
use mathlib.Core.Path.{subst}
use lisptc.Prelude.{
  take-drop, ℕ, zero, suc, ◌≤◌, String, true, false, ◌≡◌, refl, ap, sym, ◌∙◌, some, List, [], ◌∷◌,
  ◌++◌, any, find, take, drop, length, get_elem?, leb, ltb, arith, if◌then◌else◌, Bool-cases, inl,
  inr,
}
use lisptc.Prelude.Result.{ok}
use lisptc.Prelude.Int.{pos}
use lisptc.Value.{bigint}
use lisptc.Intent.{
  IntentStates, Todo, move, count, known, is_labelled, others, insert_at, show, with_todos,
}

others-append :
    (label : String) (xs ys : List Todo)
    → others label (xs ++ ys) ≡ others label xs ++ others label ys
others-append label [] ys = refl
others-append label (t ∷ xs) ys = elim (Bool-cases (is_labelled label t)) [
  | inl same ↦ rw same (others-append label xs ys)
  | inr other ↦ rw other (ap (λ l. t ∷ l) (others-append label xs ys))
]

others_twice : (label : String) (xs : List Todo) → others label (others label xs) ≡ others label xs
others_twice label [] = refl
others_twice label (t ∷ xs) = elim (Bool-cases (is_labelled label t)) [
  | inl same ↦ rw same (others_twice label xs)
  | inr other ↦ rw (other, other) (ap (λ l. t ∷ l) (others_twice label xs))
]

-- the place of what is put at `at` into `n` others
abbrev pub place : ℕ → ℕ → ℕ
place at n = if leb at n then at else n

get_elem?-in {ℓ} :
    {A : Type ℓ} (at : ℕ) (x : A) (xs : List A)
    → at ≤ length xs
    → get_elem? (take at xs ++ x ∷ drop at xs) at ≡ some x
get_elem?-in zero x xs h = refl
get_elem?-in (suc n) x [] h = ground arith
get_elem?-in (suc n) x (y ∷ xs) h = get_elem?-in n x xs (omega (arith, h))

get_elem?-past {ℓ} :
    {A : Type ℓ} (at : ℕ) (x : A) (xs : List A)
    → length xs ≤ at
    → get_elem? (take at xs ++ x ∷ drop at xs) (length xs) ≡ some x
get_elem?-past zero x [] h = refl
get_elem?-past zero x (y ∷ xs) h = ground arith
get_elem?-past (suc n) x [] h = refl
get_elem?-past (suc n) x (y ∷ xs) h = get_elem?-past n x xs (omega (arith, h))

get_elem?-place {ℓ} :
    {A : Type ℓ} (at : ℕ) (x : A) (xs : List A)
    → get_elem? (take at xs ++ x ∷ drop at xs) (place at (length xs)) ≡ some x
get_elem?-place at x xs = elim (Bool-cases (leb at (length xs))) [
  | inl inside ↦ rw inside (get_elem?-in at x xs (ground (arith, inside)))
  | inr past ↦ rw past (get_elem?-past at x xs (ground (arith, past)))
]

length-insert {ℓ} :
    {A : Type ℓ} (at : ℕ) (x : A) (xs : List A)
    → length (take at xs ++ x ∷ drop at xs) ≡ suc (length xs)
length-insert zero x xs = refl
length-insert (suc n) x [] = refl
length-insert (suc n) x (y ∷ xs) = ap suc (length-insert n x xs)

found-is_labelled :
    (label : String) (todos : List Todo) (t : Todo)
    → find (is_labelled label) todos ≡ some t
    → (is_labelled label t ≡ true) × (any (is_labelled label) todos ≡ true)
found-is_labelled label [] t h = ground arith
found-is_labelled label (u ∷ todos) t h = elim (Bool-cases (is_labelled label u)) [
  | inl same ↦
      let first : u ≡ t = ground (arith, rw same at h) in
      (subst (λ v. is_labelled label v ≡ true) first same, rw same refl)
  | inr other ↦
      let (labelled, there) = found-is_labelled label todos t (rw other at h) in
      (labelled, rw (other, there) refl)
]

without_head :
    (label : String) (t : Todo) (rest : List Todo)
    → is_labelled label t ≡ true
    → others label (t ∷ rest) ≡ others label rest
without_head label t rest same = rw same refl

others-insert_at :
    (label : String) (at : ℕ) (t : Todo) (todos : List Todo)
    → is_labelled label t ≡ true
    → others label (take at (others label todos) ++ t ∷ drop at (others label todos))
      ≡ others label todos
others-insert_at label at t todos same =
    others-append label (take at (others label todos)) (t ∷ drop at (others label todos))
    ∙ ap (λ l. others label (take at (others label todos)) ++ l) (without_head label t _ same)
    ∙ sym (others-append label (take at (others label todos)) (drop at (others label todos)))
    ∙ ap (others label) (take-drop at (others label todos))
    ∙ others_twice label todos

count_any : (n : ℕ) → count (bigint (pos n)) 0 ≡ ok n
unfolding count
count_any n = let enough : ltb n 0 ≡ false = ground arith in rw enough refl

-- intent/move of a label that a todo has succeeds: the first todo of the label stands at the position
-- that is asked for, or behind all the others where that is past the end, the todos of other labels are
-- those from before in their order, and no other todo of the label is left.
pub move-others :
    (label : String) (at : ℕ) (s : IntentStates) (t : Todo)
    → find (is_labelled label) s.intent.todos ≡ some t
    → (next : IntentStates) × (move label (bigint (pos at)) s ≡ ok next)
      × (others label next.intent.todos ≡ others label s.intent.todos)
      × (get_elem? next.intent.todos (place at (length (others label s.intent.todos))) ≡ some t)
      × (length next.intent.todos ≡ suc (length (others label s.intent.todos)))
unfolding move known
move-others label at s t found =
    let rest = others label s.intent.todos in
    let (same, there) = found-is_labelled label s.intent.todos t found in
    let moved = show (with_todos (insert_at at (some t) rest) s) in
    (
      moved,
      rw (count_any at, there, found) refl,
      others-insert_at label at t s.intent.todos same,
      get_elem?-place at t rest,
      length-insert at t rest,
    )
