-- ===== src/Mailbox/Fifo.antt =====
-- A thread's envelopes are taken in the order in which they are posted.
use lisptc.Prelude.{
  append_assoc, append-nil, take-drop, ℕ, zero, suc, String, Bool, true, false, ◌≡◌, refl, ap, sym,
  ◌∙◌, Option, none, some, List, [], ◌∷◌, ◌++◌, ◌===◌, ===_iff, if◌then◌else◌, Bool-cases, inl, inr,
  arith,
}
use lisptc.Prelude.Dict
use lisptc.Prelude.Dict.{Dict, get-put, get-delete}
use lisptc.Mailbox.{
  Envelope, Mailbox, or_nobody, keep, post, first, after_first, take_found, take_envelopes,
  withdraw_found, withdraw,
}

pub data Action {ℓ} (B : Type ℓ) : Type ℓ where
  posts : String → Envelope B → Action B
  takes : String → Option ℕ → Action B
  withdraws : String → String → Action B

module _ {ℓ} {B : Type ℓ} where
  abbrev pub queue : String → Mailbox B → List (Envelope B)
  queue thread m = or_nobody (Dict.get thread m)

  abbrev pub act : Action B → Mailbox B → Mailbox B
  act (posts thread e) m = post thread e m
  act (takes thread max) m = (take_envelopes thread max m).1
  act (withdraws thread id) m = (withdraw thread id m).1

  -- what an action takes for a thread, and what it posts to it
  abbrev pub taken_by : String → Action B → Mailbox B → List (Envelope B)
  taken_by thread (takes other max) m =
      if other === thread then (take_envelopes other max m).0 else []
  taken_by thread _ m = []

  abbrev pub posted_by : String → Action B → List (Envelope B)
  posted_by thread (posts other e) = if other === thread then e ∷ [] else []
  posted_by thread _ = []

  abbrev pub acts : List (Action B) → Mailbox B → Mailbox B
  acts [] m = m
  acts (a ∷ more) m = acts more (act a m)

  abbrev pub taken : String → List (Action B) → Mailbox B → List (Envelope B)
  taken thread [] m = []
  taken thread (a ∷ more) m = taken_by thread a m ++ taken thread more (act a m)

  abbrev pub posted : String → List (Action B) → List (Envelope B)
  posted thread [] = []
  posted thread (a ∷ more) = posted_by thread a ++ posted thread more

  abbrev pub thread_of : Action B → String
  thread_of (posts thread _) = thread
  thread_of (takes thread _) = thread
  thread_of (withdraws thread _) = thread

  -- nothing is withdrawn from the thread
  abbrev pub is_kept : String → List (Action B) → Bool
  is_kept thread [] = true
  is_kept thread (withdraws other id ∷ more) =
      if other === thread then false else is_kept thread more
  is_kept thread (_ ∷ more) = is_kept thread more

  or_nobody-if :
      (b : Bool) (x y : Option (List (Envelope B)))
      → or_nobody (if b then x else y) ≡ (if b then or_nobody x else or_nobody y)
  or_nobody-if true x y = refl
  or_nobody-if false x y = refl

  queue-put :
      (other thread : String) (q : List (Envelope B)) (m : Mailbox B)
      → queue thread (Dict.put other q m) ≡ (if other === thread then q else queue thread m)
  queue-put other thread q m =
      ap or_nobody (get-put other thread q m)
      ∙ or_nobody-if (other === thread) (some q) (Dict.get thread m)

  queue-keep :
      (other thread : String) (q : List (Envelope B)) (m : Mailbox B)
      → queue thread (keep other q m) ≡ (if other === thread then q else queue thread m)
  queue-keep other thread [] m =
      ap or_nobody (get-delete other thread m)
      ∙ or_nobody-if (other === thread) none (Dict.get thread m)
  queue-keep other thread (e ∷ q) m = queue-put other thread (e ∷ q) m

  first_none : (max : Option ℕ) → first {B = B} max [] ≡ []
  first_none none = refl
  first_none (some zero) = refl
  first_none (some (suc n)) = refl

  after_first_none : (max : Option ℕ) → after_first {B = B} max [] ≡ []
  after_first_none none = refl
  after_first_none (some zero) = refl
  after_first_none (some (suc n)) = refl

  take_found-first :
      (thread : String) (max : Option ℕ) (found : Option (List (Envelope B))) (m : Mailbox B)
      → (take_found thread max found m).0 ≡ first max (or_nobody found)
  take_found-first thread max none m = sym (first_none max)
  take_found-first thread max (some q) m = refl

  queue-take_found :
      (other thread : String) (max : Option ℕ) (found : Option (List (Envelope B))) (m : Mailbox B)
      → Dict.get other m ≡ found
      → queue thread (take_found other max found m).1
        ≡ (if other === thread then after_first max (or_nobody found) else queue thread m)
  queue-take_found other thread max none m e = elim (Bool-cases (other === thread)) [
    | inl same ↦
        let here : thread ≡ other = sym ((===_iff other thread).0 same) in
        rw same (ap (λ t. queue t m) here ∙ ap or_nobody e ∙ sym (after_first_none max))
    | inr different ↦ rw different refl
  ]
  queue-take_found other thread max (some q) m e = queue-keep other thread (after_first max q) m

  first-after_first :
      (max : Option ℕ) (q : List (Envelope B)) → first max q ++ after_first max q ≡ q
  first-after_first none q = append-nil q
  first-after_first (some n) q = take-drop n q

  queue-withdraw_found :
      (other thread : String) (found : Option (List (Envelope B))) (m : Mailbox B)
      → (other === thread) ≡ false
      → queue thread (withdraw_found other found m).1 ≡ queue thread m
  queue-withdraw_found other thread none m different = refl
  queue-withdraw_found other thread (some q) m different =
      queue-keep other thread q m ∙ rw different refl

  -- one action, on another thread and on this one
  pub act-other :
      (thread : String) (a : Action B) (m : Mailbox B)
      → (thread_of a === thread) ≡ false
      → (taken_by thread a m ≡ [])
        × (queue thread (act a m) ≡ queue thread m)
        × (posted_by thread a ≡ [])
  unfolding post withdraw take_envelopes
  act-other thread (posts other e) m different =
      (refl, queue-put other thread _ m ∙ rw different refl, rw different refl)
  act-other thread (takes other max) m different = (
    rw different refl,
    queue-take_found other thread max (Dict.get other m) m refl ∙ rw different refl,
    refl,
  )
  act-other thread (withdraws other id) m different =
      (refl, queue-withdraw_found other thread _ m different, refl)

  -- what a taking from the thread gives and leaves
  pub takes-here :
      (other thread : String) (max : Option ℕ) (m : Mailbox B)
      → (other === thread) ≡ true
      → ((take_envelopes other max m).0 ≡ first max (queue thread m))
        × (queue thread (take_envelopes other max m).1 ≡ after_first max (queue thread m))
  unfolding take_envelopes
  takes-here other thread max m same =
      let here : other ≡ thread = (===_iff other thread).0 same in
      (
        take_found-first other max (Dict.get other m) m ∙ ap (λ t. first max (queue t m)) here,
        queue-take_found other thread max (Dict.get other m) m refl
            ∙ rw same refl
            ∙ ap (λ t. after_first max (queue t m)) here,
      )

  pub act-here :
      (thread : String) (a : Action B) (m : Mailbox B)
      → (thread_of a === thread) ≡ true
      → is_kept thread (a ∷ []) ≡ true
      → taken_by thread a m ++ queue thread (act a m) ≡ queue thread m ++ posted_by thread a
  unfolding post take_envelopes
  act-here thread (posts other e) m same h =
      let here : other ≡ thread = (===_iff other thread).0 same in
      rw same (queue-put other thread _ m ∙ rw same (ap (λ t. queue t m ++ e ∷ []) here))
  act-here thread (takes other max) m same h =
      let (given, left) = takes-here other thread max m same in
      rw (same, given, left)
        (first-after_first max (queue thread m) ∙ sym (append-nil (queue thread m)))
  act-here thread (withdraws other id) m same h = ground (arith, rw same at h)

  pub act-queue :
      (thread : String) (a : Action B) (m : Mailbox B)
      → is_kept thread (a ∷ []) ≡ true
      → taken_by thread a m ++ queue thread (act a m) ≡ queue thread m ++ posted_by thread a
  act-queue thread a m h = elim (Bool-cases (thread_of a === thread)) [
    | inl same ↦ act-here thread a m same h
    | inr different ↦
        let (nothing, stays, none_new) = act-other thread a m different in
        rw (nothing, stays, none_new) (sym (append-nil (queue thread m)))
  ]

  is_kept-first :
      (thread : String) (a : Action B) (more : List (Action B))
      → is_kept thread (a ∷ more) ≡ true
      → (is_kept thread (a ∷ []) ≡ true) × (is_kept thread more ≡ true)
  is_kept-first thread (posts _ _) more h = (refl, h)
  is_kept-first thread (takes _ _) more h = (refl, h)
  is_kept-first thread (withdraws other id) more h = elim (Bool-cases (other === thread)) [
    | inl same ↦ ground (arith, rw same at h)
    | inr different ↦ (rw different refl, rw different at h)
  ]

  -- While none is withdrawn from a thread, its mailbox is a queue: the envelopes that are taken for the
  -- thread and then those that still wait are those that waited before and then those that were posted
  -- to it, in this order, whatever is done for other threads in between.
  pub taken-queue :
      (thread : String) (actions : List (Action B)) (m : Mailbox B)
      → is_kept thread actions ≡ true
      → taken thread actions m ++ queue thread (acts actions m)
        ≡ queue thread m ++ posted thread actions
  taken-queue thread [] m h = sym (append-nil (queue thread m))
  taken-queue thread (a ∷ more) m h =
      let (first_kept, later_kept) = is_kept-first thread a more h in
      append_assoc (taken_by thread a m) (taken thread more (act a m))
        (queue thread (acts more (act a m)))
      ∙ ap (λ l. taken_by thread a m ++ l) (taken-queue thread more (act a m) later_kept)
      ∙ sym (append_assoc (taken_by thread a m) (queue thread (act a m)) (posted thread more))
      ∙ ap (λ l. l ++ posted thread more) (act-queue thread a m first_kept)
      ∙ append_assoc (queue thread m) (posted_by thread a) (posted thread more)
