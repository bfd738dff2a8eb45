-- ===== src/Intent/Marks.antt =====
-- The marks of the todos that are done, through what an operation makes of a list of todos.
pub mod Parts
pub mod Labels
pub mod Kept
use lisptc.Prelude.{
  ◌⊎◌, String, Bool, true, false, not, ◌≡◌, refl, List, [], ◌∷◌, any, All, arith, Bool-cases, inl,
  inr, ◌&&◌,
}
use lisptc.Intent.{Todo, todo, is_labelled}

abbrev pub is_done : String → Todo → Bool
is_done label t = is_labelled label t && t.done

abbrev pub has_done : String → List Todo → Bool
has_done label todos = any (is_done label) todos

abbrev pub AllDone : String → List Todo → Type 0
AllDone label todos = All (λ t. is_labelled label t ≡ true → t.done ≡ true) todos

-- todos with the same label have the same mark
abbrev pub IsConsistent : List Todo → Type 0
IsConsistent todos = (label : String) → has_done label todos ≡ true → AllDone label todos

-- what an operation does to the marks
abbrev pub Keeps : List Todo → List Todo → Type 0
Keeps old new =
    (label : String)
    → (has_done label old ≡ true → AllDone label old → AllDone label new)
        × (has_done label new ≡ true → has_done label old ≡ true)
      ⊎ AllDone label new

pub Keeps-same : (todos : List Todo) → Keeps todos todos
Keeps-same todos label = inl (λ some_done all_done. all_done, λ some_done. some_done)

pub Keeps-IsConsistent : (old new : List Todo) → Keeps old new → IsConsistent old → IsConsistent new
Keeps-IsConsistent old new keeps c label some_done = by_cases (keeps label)
  where
    by_cases :
        ((has_done label old ≡ true → AllDone label old → AllDone label new)
            × (has_done label new ≡ true → has_done label old ≡ true))
          ⊎ AllDone label new
        → AllDone label new
    by_cases (inl (kept, back)) = kept (back some_done) (c label (back some_done))
    by_cases (inr all_done) = all_done

pub Keeps-done :
    (old new : List Todo) (label : String)
    → Keeps old new
    → IsConsistent old
    → has_done label old ≡ true
    → AllDone label new
Keeps-done old new label keeps c some_done = by_cases (keeps label)
  where
    by_cases :
        ((has_done label old ≡ true → AllDone label old → AllDone label new)
            × (has_done label new ≡ true → has_done label old ≡ true))
          ⊎ AllDone label new
        → AllDone label new
    by_cases (inl (kept, _)) = kept some_done (c label some_done)
    by_cases (inr all_done) = all_done

abbrev pub None : String → List Todo → Type 0
None label todos = All (λ t. is_done label t ≡ false) todos

pub None-has_done :
    (label : String) (todos : List Todo) → None label todos → has_done label todos ≡ false
None-has_done label [] h = refl
None-has_done label (t ∷ todos) (p, h) = rw p (None-has_done label todos h)

pub has_done-None :
    (label : String) (todos : List Todo) → has_done label todos ≡ false → None label todos
has_done-None label [] h = tt
has_done-None label (t ∷ todos) h =
    (ground (arith, h), has_done-None label todos (ground (arith, h)))

-- `new` has no todo that `old` has not
abbrev pub IsPart : List Todo → List Todo → Type 1
IsPart old new = (P : Todo → Type 0) → All P old → All P new

pub IsPart-Keeps : (old new : List Todo) → IsPart old new → Keeps old new
IsPart-Keeps old new part label = inl (λ some_done all_done. part _ all_done, back)
  where
    back : has_done label new ≡ true → has_done label old ≡ true
    back some_done = elim (Bool-cases (has_done label old)) [
      | inl old_done ↦ old_done
      | inr none_done ↦
          let absent : has_done label new ≡ false =
            None-has_done label new (part _ (has_done-None label old none_done)) in
          ground (arith, absent, some_done)
    ]
