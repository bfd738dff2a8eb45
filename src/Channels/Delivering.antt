-- ===== src/Channels/Delivering.antt =====
-- What one delivery of an envelope does: the two loops of `emit`.
use mathlib.Core.Path.{subst}
use lisptc.Prelude.{
  ℕ, String, Bool, true, false, List, [], ◌∷◌, ◌++◌, map, append-nil, append_assoc, ◌≡◌, refl, sym,
  ap, ◌∙◌, ◌==◌, if◌then◌else◌, Bool-cases, inl, inr, arith,
}
use lisptc.Prelude.Dict
use lisptc.Prelude.Result.{Result, ok, err}
use lisptc.Channels.{
  Envelope, Channels, Delivery, heard, sent, audience_of, or_none, includes, exclude, after, ◌>>=◌,
  catch, done, deliver, call_listeners, call_transports,
}

-- who an envelope is for: the listeners of its topic, those of any topic, and then the transports
abbrev pub receivers : {P : Type 0} → Channels → Envelope P → List (Delivery P)
receivers c e =
    map (λ n. heard n e) (or_none (Dict.get e.topic c.listeners))
    ++ map (λ n. heard n e) c.anyone
    ++ map (λ t. sent t e) c.transports

map-append {ℓ κ} :
    {A : Type ℓ} {B : Type κ} (f : A → B) (xs ys : List A) → map f (xs ++ ys) ≡ map f xs ++ map f ys
map-append f [] ys = refl
map-append f (x ∷ xs) ys = ap (λ l. f x ∷ l) (map-append f xs ys)

pub apart : (true ≡ false) → ⊥
apart e = cc

includes-exclude : (t : ℕ) (ts : List ℕ) → includes t (exclude t ts) ≡ false
includes-exclude t [] = refl
includes-exclude t (s ∷ ts) = ground (arith, includes-exclude t ts)

includes-exclude_other :
    (x t : ℕ) (ts : List ℕ) → includes x (exclude t ts) ≡ true → includes x ts ≡ true
includes-exclude_other x t [] h = h
includes-exclude_other x t (s ∷ ts) h = ground (arith, includes-exclude_other x t ts, h)

abbrev pub with_thrown : Result String (Unit {0}) → List String → List String
with_thrown (ok u) before = before
with_thrown (err message) before = before ++ message ∷ []

abbrev if_kept : ℕ → Result String Bool → List ℕ → List ℕ
if_kept t (ok true) left = left
if_kept t (ok false) left = exclude t left
if_kept t (err message) left = exclude t left

module _ {P : Type 0} (hear : ℕ → Envelope P → Result String (Unit {0}))
    (send : ℕ → Envelope P → Result String Bool) (failed : String → String → P) where
  -- the messages of the listeners that throw, and the transports that stay
  unfoldable pub thrown : Envelope P → List ℕ → List String → List String
  thrown e [] before = before
  thrown e (n ∷ ns) before = thrown e ns (with_thrown (hear n e) before)

  pub kept : Envelope P → List ℕ → List ℕ → List ℕ
  kept e [] left = left
  kept e (t ∷ ts) left = kept e ts (if_kept t (send t e) left)

  listener_lem :
      (e : Envelope P) (n : ℕ) (r : Result String (Unit {0})) (before : List String)
      → catch ((heard n e ∷ [], r) >>= λ _. done before) (λ message. done (before ++ message ∷ []))
        ≡ (heard n e ∷ [], ok (with_thrown r before))
  listener_lem e n (ok u) before = refl
  listener_lem e n (err message) before = refl

  transport_lem :
      (e : Envelope P) (t : ℕ) (r : Result String Bool) (left : List ℕ)
      → catch
          ((sent t e ∷ [], r) >>= λ kept. done (if kept then left else exclude t left))
          (λ _. done (exclude t left))
        ≡ (sent t e ∷ [], ok (if_kept t r left))
  transport_lem e t (ok true) left = refl
  transport_lem e t (ok false) left = refl
  transport_lem e t (err message) left = refl

  call_listeners-told :
      (e : Envelope P) (ns : List ℕ) (before : List String)
      → call_listeners hear send failed e ns before
        ≡ (map (λ n. heard n e) ns, ok (thrown e ns before))
  unfolding call_listeners thrown
  call_listeners-told e [] before = refl
  call_listeners-told e (n ∷ ns) before =
      ap (λ o. o >>= call_listeners hear send failed e ns) (listener_lem e n (hear n e) before)
      ∙ ap (after (heard n e ∷ [])) (call_listeners-told e ns (with_thrown (hear n e) before))

  call_transports-told :
      (e : Envelope P) (ts left : List ℕ)
      → call_transports hear send failed e ts left ≡ (map (λ t. sent t e) ts, ok (kept e ts left))
  unfolding call_transports kept
  call_transports-told e [] left = refl
  call_transports-told e (t ∷ ts) left =
      ap (λ o. o >>= call_transports hear send failed e ts) (transport_lem e t (send t e) left)
      ∙ ap (after (sent t e ∷ [])) (call_transports-told e ts (if_kept t (send t e) left))

  if_kept-includes :
      (x t : ℕ) (r : Result String Bool) (left : List ℕ)
      → includes x (if_kept t r left) ≡ true
      → includes x left ≡ true
  if_kept-includes x t (ok true) left h = h
  if_kept-includes x t (ok false) left h = includes-exclude_other x t left h
  if_kept-includes x t (err message) left h = includes-exclude_other x t left h

  pub kept-includes :
      (e : Envelope P) (x : ℕ) (ts left : List ℕ)
      → includes x (kept e ts left) ≡ true
      → includes x left ≡ true
  unfolding kept
  kept-includes e x [] left h = h
  kept-includes e x (t ∷ ts) left h =
      if_kept-includes x t (send t e) left (kept-includes e x ts (if_kept t (send t e) left) h)

  accepted_if :
      (t : ℕ) (r : Result String Bool) (left : List ℕ)
      → includes t (if_kept t r left) ≡ true
      → r ≡ ok true
  accepted_if t (ok true) left h = refl
  accepted_if t (ok false) left h = absurd (apart (sym h ∙ includes-exclude t left))
  accepted_if t (err message) left h = absurd (apart (sym h ∙ includes-exclude t left))

  pub kept-accepted :
      (e : Envelope P) (x : ℕ) (ts left : List ℕ)
      → includes x ts ≡ true
      → includes x (kept e ts left) ≡ true
      → send x e ≡ ok true
  unfolding kept
  kept-accepted e x [] left h k = absurd (apart (sym h))
  kept-accepted e x (t ∷ ts) left h k = elim (Bool-cases (t == x)) [
    | inl same ↦
        let here : t ≡ x = ground (arith, same) in
        let still = kept-includes e x ts (if_kept t (send t e) left) k in
        subst (λ y. send y e ≡ ok true) here
          (accepted_if t (send t e) left
            (subst (λ y. includes y (if_kept t (send t e) left) ≡ true) (sym here) still))
    | inr other ↦
        let later : includes x ts ≡ true = ground (arith, h, other) in
        kept-accepted e x ts (if_kept t (send t e) left) later k
  ]

  pub deliver-receivers :
      (e : Envelope P) (c : Channels)
      → deliver hear send failed e c ≡ (
        receivers c e,
        ok (
          thrown e (audience_of c e.topic) [],
          record c { transports = kept e c.transports c.transports },
        ),
      )
  unfolding deliver
  deliver-receivers e c =
      let own = or_none (Dict.get e.topic c.listeners) in
      rw
        (
          call_listeners-told e (audience_of c e.topic) [],
          call_transports-told e c.transports c.transports,
          map-append (λ n. heard n e) own c.anyone,
          append-nil (map (λ t. sent t e) c.transports),
          append_assoc (map (λ n. heard n e) own) (map (λ n. heard n e) c.anyone)
              (map (λ t. sent t e) c.transports),
        )
        refl
