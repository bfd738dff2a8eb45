-- ===== src/Intent/Marks/Parts.antt =====
-- What only leaves todos out or moves them keeps the marks.
use lisptc.Prelude.{
  ℕ, zero, suc, String, Bool, Option, none, some, List, [], ◌∷◌, find, take, drop, All, All-append,
  All-filter, Bool-cases, inl, inr,
}
use lisptc.Intent.{Todo, is_labelled, others, insert_at}
use lisptc.Intent.Marks.{IsPart}

All-take : (P : Todo → Type 0) (n : ℕ) (xs : List Todo) → All P xs → All P (take n xs)
All-take P zero xs h = tt
All-take P (suc n) [] h = tt
All-take P (suc n) (x ∷ xs) (p, h) = (p, All-take P n xs h)

All-drop : (P : Todo → Type 0) (n : ℕ) (xs : List Todo) → All P xs → All P (drop n xs)
All-drop P zero xs h = h
All-drop P (suc n) [] h = tt
All-drop P (suc n) (x ∷ xs) (p, h) = All-drop P n xs h

abbrev OnSome : (Todo → Type 0) → Option Todo → Type 0
OnSome P none = Unit
OnSome P (some t) = P t

All-find : (P : Todo → Type 0) (p : Todo → Bool) (xs : List Todo) → All P xs → OnSome P (find p xs)
All-find P p [] h = tt
All-find P p (x ∷ xs) (q, h) = elim (Bool-cases (p x)) [
  | inl found ↦ rw found q
  | inr not_yet ↦ rw not_yet (All-find P p xs h)
]

All-insert_at :
    (P : Todo → Type 0) (at : ℕ) (found : Option Todo) (rest : List Todo)
    → OnSome P found
    → All P rest
    → All P (insert_at at found rest)
All-insert_at P at none rest p h = h
All-insert_at P at (some t) rest p h =
    All-append P (take at rest) (t ∷ drop at rest) (All-take P at rest h) (p, All-drop P at rest h)

pub moved-IsPart :
    (label : String) (at : ℕ) (todos : List Todo)
    → IsPart todos (insert_at at (find (is_labelled label) todos) (others label todos))
moved-IsPart label at todos P h =
    All-insert_at P at (find (is_labelled label) todos) (others label todos)
      (All-find P (is_labelled label) todos h) (All-filter P _ todos h)

pub others-IsPart : (label : String) (todos : List Todo) → IsPart todos (others label todos)
others-IsPart label todos P h = All-filter P _ todos h

pub none-IsPart : (todos : List Todo) → IsPart todos []
none-IsPart todos P h = tt
