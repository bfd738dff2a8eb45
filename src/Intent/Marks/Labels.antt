-- ===== src/Intent/Marks/Labels.antt =====
-- A list of labels given again, and a label that is checked, keep the marks.
use mathlib.Core.Path.{subst}
use lisptc.Prelude.{
  String, true, false, ◌≡◌, refl, sym, List, [], ◌∷◌, map, arith, Bool-cases, inl, inr, ◌===◌,
  ===_iff,
}
use lisptc.Intent.{Todo, is_labelled, marked_by, checked}
use lisptc.Intent.Marks.{is_done, has_done, AllDone, Keeps, None, None-has_done, has_done-None}

-- the list of labels given again
marked-AllDone :
    (before : List Todo) (labels : List String) (label : String)
    → has_done label before ≡ true
    → AllDone label (map (marked_by before) labels)
marked-AllDone before [] label h = tt
marked-AllDone before (l ∷ labels) label h = (
  λ same. subst (λ n. has_done n before ≡ true) (sym ((===_iff l label).0 same)) h,
  marked-AllDone before labels label h,
)

none_marked :
    (before : List Todo) (l label : String)
    → has_done label before ≡ false
    → is_done label (marked_by before l) ≡ false
none_marked before l label h = elim (Bool-cases (l === label)) [
  | inl same ↦ rw same (subst (λ n. has_done n before ≡ false) (sym ((===_iff l label).0 same)) h)
  | inr other ↦ rw other refl
]

marked-None :
    (before : List Todo) (labels : List String) (label : String)
    → has_done label before ≡ false
    → None label (map (marked_by before) labels)
marked-None before [] label h = tt
marked-None before (l ∷ labels) label h =
    (none_marked before l label h, marked-None before labels label h)

pub marked-Keeps :
    (before : List Todo) (labels : List String) → Keeps before (map (marked_by before) labels)
marked-Keeps before labels label = elim (Bool-cases (has_done label before)) [
  | inl old_done ↦ inr (marked-AllDone before labels label old_done)
  | inr none_done ↦
      let absent : has_done label (map (marked_by before) labels) ≡ false =
        None-has_done label _ (marked-None before labels label none_done) in
      inl (
        λ some_done _. ground (arith, some_done, none_done),
        λ some_done. ground (arith, some_done, absent),
      )
]

checked_self :
    (label : String) (t : Todo)
    → is_labelled label (checked label t) ≡ true
    → (checked label t).done ≡ true
checked_self label t = elim (Bool-cases (is_labelled label t)) [
  | inl same ↦ rw same (λ _. refl)
  | inr other ↦ rw (other, other) (λ e. ground (arith, e))
]

checked_other :
    (label other : String) (t : Todo)
    → (is_labelled other t ≡ true → t.done ≡ true)
    → is_labelled other (checked label t) ≡ true
    → (checked label t).done ≡ true
checked_other label other t p = elim (Bool-cases (is_labelled label t)) [
  | inl same ↦ rw same (λ _. refl)
  | inr different ↦ rw different p
]

checked_not :
    (label other : String) (t : Todo)
    → (label === other) ≡ false
    → is_done other t ≡ false
    → is_done other (checked label t) ≡ false
checked_not label other t e p = elim (Bool-cases (is_labelled label t)) [
  | inl same ↦ rw (same, e) refl
  | inr different ↦ rw different p
]

checked-AllDone : (label : String) (todos : List Todo) → AllDone label (map (checked label) todos)
checked-AllDone label [] = tt
checked-AllDone label (t ∷ todos) = (checked_self label t, checked-AllDone label todos)

checked-kept :
    (label other : String) (todos : List Todo)
    → AllDone other todos
    → AllDone other (map (checked label) todos)
checked-kept label other [] h = tt
checked-kept label other (t ∷ todos) (p, h) =
    (checked_other label other t p, checked-kept label other todos h)

checked-None :
    (label other : String) (todos : List Todo)
    → (label === other) ≡ false
    → None other todos
    → None other (map (checked label) todos)
checked-None label other [] e h = tt
checked-None label other (t ∷ todos) e (p, h) =
    (checked_not label other t e p, checked-None label other todos e h)

pub checked-Keeps : (label : String) (todos : List Todo) → Keeps todos (map (checked label) todos)
checked-Keeps label todos other = elim (Bool-cases (label === other)) [
  | inl same ↦ inr (
      subst (λ n. AllDone n (map (checked label) todos)) ((===_iff label other).0 same)
        (checked-AllDone label todos))
  | inr different ↦
      inl (λ some_done all_done. checked-kept label other todos all_done, back different)
]
  where
    back :
        (label === other) ≡ false
        → has_done other (map (checked label) todos) ≡ true
        → has_done other todos ≡ true
    back different some_done = elim (Bool-cases (has_done other todos)) [
      | inl old_done ↦ old_done
      | inr none_done ↦
          let absent : has_done other (map (checked label) todos) ≡ false =
            None-has_done other _
              (checked-None label other todos different (has_done-None other todos none_done)) in
          ground (arith, absent, some_done)
    ]
