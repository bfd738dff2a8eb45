-- ===== src/Channels/Addressing.antt =====
-- Each audience that a topic addresses is told its payload, once.
use lisptc.Prelude.{
  String, Bool, true, false, Option, none, some, List, [], ◌∷◌, ◌++◌, map, ◌≡◌, ◌≢◌, refl, ap, sym,
  ◌∙◌, ◌||◌, any, if◌then◌else◌, arith, Bool-cases, inl, inr,
}
use lisptc.Channels.{
  Audience, user, model, harness, same_audience, Envelope, add_to, add_addressed, groups_of,
  envelope_of, envelopes,
}

abbrev pub addresses : Audience → List Audience → Bool
addresses a to = any (λ b. same_audience b a) to

-- what an audience is told by envelopes
unfoldable pub told : {P : Type 0} → Audience → List (Envelope P) → List P
told a [] = []
told a (e ∷ es) = let rest = told a es in if addresses a e.to then e.payload ∷ rest else rest

abbrev pub as_list : {P : Type 0} → Option P → List P
as_list none = []
as_list (some p) = p ∷ []

same_self : (a : Audience) → same_audience a a ≡ true
same_self user = refl
same_self model = refl
same_self harness = refl

addresses-append :
    (a b : Audience) (to : List Audience)
    → addresses a (to ++ b ∷ []) ≡ (addresses a to || same_audience b a)
addresses-append a b [] = ground arith
addresses-append a b (c ∷ to) = ground (arith, addresses-append a b to)

cons≢nil : {P : Type 0} {p : P} {ps : List P} → (p ∷ ps) ≢ []
cons≢nil e = cc

module _ {P : Type 0} (same : P → P → Bool) (name : String) where
  abbrev told_in : Audience → List (P × List Audience) → List P
  told_in a groups = told a (map (envelope_of name) groups)

  add_to-other :
      (a b : Audience) (p : P) (groups : List (P × List Audience))
      → same_audience b a ≡ false
      → told_in a (add_to same b p groups) ≡ told_in a groups
  unfolding add_to told
  add_to-other a b p [] e = rw e refl
  add_to-other a b p ((q, to) ∷ groups) e =
      let more = addresses-append a b to in
      let later = add_to-other a b p groups e in
      elim (Bool-cases (same q p)) [
        | inl s ↦
            rw (s, more, e)
              (elim (Bool-cases (addresses a to)) [ inl h ↦ rw h refl | inr h ↦ rw h refl ])
        | inr s ↦ rw s (ap (λ l. if addresses a to then q ∷ l else l) later)
      ]

  module _ (lawful : (q p : P) → same q p ≡ true → q ≡ p) where
    add_to_self :
        (a : Audience) (p : P) (groups : List (P × List Audience))
        → told_in a groups ≡ []
        → told_in a (add_to same a p groups) ≡ p ∷ []
    unfolding add_to told
    add_to_self a p [] e = rw (same_self a) refl
    add_to_self a p ((q, to) ∷ groups) e =
        let more = addresses-append a a to in
        elim (Bool-cases (addresses a to)) [
          | inl h ↦ absurd (
              cons≢nil (ap (λ b. if b then q ∷ told_in a groups else told_in a groups) (sym h) ∙ e))
          | inr h ↦
              let rest : told_in a groups ≡ [] =
                ap (λ b. if b then q ∷ told_in a groups else told_in a groups) (sym h) ∙ e in
              elim (Bool-cases (same q p)) [
                | inl s ↦ rw (s, more, h, same_self a, rest) (ap (λ x. x ∷ []) (lawful q p s))
                | inr s ↦ rw (s, h) (add_to_self a p groups rest)
              ]
        ]

    add_addressed_self :
        (a : Audience) (o : Option P) (groups : List (P × List Audience))
        → told_in a groups ≡ []
        → told_in a (add_addressed same a o groups) ≡ as_list o
    add_addressed_self a none groups e = e
    add_addressed_self a (some p) groups e = add_to_self a p groups e

    add_addressed-other :
        (a b : Audience) (o : Option P) (groups : List (P × List Audience))
        → same_audience b a ≡ false
        → told_in a (add_addressed same b o groups) ≡ told_in a groups
    add_addressed-other a b none groups e = refl
    add_addressed-other a b (some p) groups e = add_to-other a b p groups e

    -- What emitting on a topic tells an audience is the payload that is addressed to it, once, and nothing
    -- where none is, however the audiences are grouped by their payloads.
    pub told-envelopes :
        (addressed : Audience → Option P) (a : Audience)
        → told a (envelopes same name addressed) ≡ as_list (addressed a)
    unfolding envelopes groups_of told
    told-envelopes addressed user =
        add_addressed-other user harness (addressed harness) _ refl
        ∙ add_addressed-other user model (addressed model) _ refl
        ∙ add_addressed_self user (addressed user) [] refl
    told-envelopes addressed model =
        add_addressed-other model harness (addressed harness) _ refl
        ∙ add_addressed_self model (addressed model) _
            (add_addressed-other model user (addressed user) [] refl)
    told-envelopes addressed harness = add_addressed_self harness (addressed harness) _ (
        add_addressed-other harness model (addressed model) _ refl
        ∙ add_addressed-other harness user (addressed user) [] refl)
