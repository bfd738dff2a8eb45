-- ===== src/Mailbox/Served.antt =====
-- An envelope that waits is taken.
use lisptc.Prelude.{
  ℕ, zero, suc, ◌-◌, ◌<◌, ◌≤◌, String, Bool, true, false, ◌≡◌, refl, none, some, List, [], ◌∷◌,
  ◌++◌, get_elem?, take, drop, ltb, ◌===◌, if◌then◌else◌, Bool-cases, inl, inr, arith,
}
use lisptc.Mailbox.{Envelope, Mailbox, post, withdraw, take_envelopes}
use lisptc.Mailbox.Fifo.{
  Action, posts, takes, withdraws, queue, posted_by, taken, act-other, takes-here, act-queue,
}

get_elem?-append {ℓ} :
    {A : Type ℓ} (xs ys : List A) (n : ℕ) (x : A)
    → get_elem? xs n ≡ some x
    → get_elem? (xs ++ ys) n ≡ some x
get_elem?-append [] ys n x h = ground arith
get_elem?-append (y ∷ xs) ys zero x h = h
get_elem?-append (y ∷ xs) ys (suc n) x h = get_elem?-append xs ys n x h

get_elem?-take {ℓ} :
    {A : Type ℓ} (k n : ℕ) (xs ys : List A) (x : A)
    → n < k
    → get_elem? xs n ≡ some x
    → get_elem? (take k xs ++ ys) n ≡ some x
get_elem?-take zero n xs ys x less h = ground arith
get_elem?-take (suc k) n [] ys x less h = ground arith
get_elem?-take (suc k) zero (y ∷ xs) ys x less h = h
get_elem?-take (suc k) (suc n) (y ∷ xs) ys x less h =
    get_elem?-take k n xs ys x (omega (arith, less)) h

get_elem?-drop {ℓ} :
    {A : Type ℓ} (k n : ℕ) (xs : List A) (x : A)
    → k ≤ n
    → get_elem? xs n ≡ some x
    → get_elem? (drop k xs) (n - k) ≡ some x
get_elem?-drop zero n xs x less h = let e : n - 0 ≡ n = omega arith in rw e h
get_elem?-drop (suc k) n [] x less h = ground arith
get_elem?-drop (suc k) zero (y ∷ xs) x less h = ground arith
get_elem?-drop (suc k) (suc n) (y ∷ xs) x less h =
    let e : suc n - suc k ≡ n - k = omega arith in
    rw e (get_elem?-drop k n xs x (omega (arith, less)) h)

get_elem?-past {ℓ} :
    {A : Type ℓ} (k n : ℕ) (xs ys : List A) (x y : A)
    → k ≤ n
    → get_elem? xs n ≡ some x
    → get_elem? ys (n - k) ≡ some y
    → get_elem? (take k xs ++ ys) n ≡ some y
get_elem?-past zero n xs ys x y less h i = let e : n - 0 ≡ n = omega arith in rw e at i
get_elem?-past (suc k) n [] ys x y less h i = ground arith
get_elem?-past (suc k) zero (z ∷ xs) ys x y less h i = ground arith
get_elem?-past (suc k) (suc n) (z ∷ xs) ys x y less h i =
    let e : suc n - suc k ≡ n - k = omega arith in
    get_elem?-past k n xs ys x y (omega (arith, less)) h (rw e at i)

module _ {ℓ} {B : Type ℓ} where
  -- the actions ask for more than `n` envelopes of the thread, before one is withdrawn from it
  abbrev pub reaches : ℕ → String → List (Action B) → Bool
  reaches n thread [] = false
  reaches n thread (posts other e ∷ more) = reaches n thread more
  reaches n thread (takes other none ∷ more) =
      if other === thread then true else reaches n thread more
  reaches n thread (takes other (some max) ∷ more) =
      let later = reaches (n - max) thread more in
      let elsewhere = reaches n thread more in
      if other === thread then if ltb n max then true else later else elsewhere
  reaches n thread (withdraws other id ∷ more) =
      let elsewhere = reaches n thread more in if other === thread then false else elsewhere

  -- An envelope at place `n` of a thread's queue is taken once more than `n` envelopes of the thread are
  -- asked for, before one is withdrawn from it, and it is the envelope at place `n` of those taken.
  pub taken-reached :
      (thread : String) (actions : List (Action B)) (m : Mailbox B) (n : ℕ) (e : Envelope B)
      → get_elem? (queue thread m) n ≡ some e
      → reaches n thread actions ≡ true
      → get_elem? (taken thread actions m) n ≡ some e
  taken-reached thread [] m n e waits asked = ground arith
  taken-reached thread (posts other f ∷ more) m n e waits asked =
      taken-reached thread more (post other f m) n e
        (rw (act-queue thread (posts other f) m refl)
          (get_elem?-append (queue thread m) (posted_by thread (posts other f)) n e waits))
        asked
  taken-reached thread (takes other none ∷ more) m n e waits asked =
      elim (Bool-cases (other === thread)) [
        | inl same ↦
            let (given, left) = takes-here other thread none m same in
            rw (same, given) (get_elem?-append (queue thread m) _ n e waits)
        | inr different ↦
            let (nothing, stays, none_new) = act-other thread (takes other none) m different in
            rw different (
              taken-reached thread more (take_envelopes other none m).1 n e (rw stays waits)
                (rw different at asked))
      ]
  taken-reached thread (takes other (some max) ∷ more) m n e waits asked =
      elim (Bool-cases (other === thread)) [
        | inl same ↦
            let (given, left) = takes-here other thread (some max) m same in
            rw (same, given)
              (elim (Bool-cases (ltb n max)) [
                | inl less ↦ get_elem?-take max n (queue thread m) _ e (ground (arith, less)) waits
                | inr not_yet ↦
                    let enough : max ≤ n = ground (arith, not_yet) in
                    get_elem?-past max n (queue thread m) _ e e enough waits (
                      taken-reached thread more (take_envelopes other (some max) m).1 (n - max) e
                        (rw left (get_elem?-drop max n (queue thread m) e enough waits))
                        (rw (same, not_yet) at asked))
              ])
        | inr different ↦
            let (nothing, stays, none_new) =
              act-other thread (takes other (some max)) m different in
            rw different (
              taken-reached thread more (take_envelopes other (some max) m).1 n e (rw stays waits)
                (rw different at asked))
      ]
  taken-reached thread (withdraws other id ∷ more) m n e waits asked =
      elim (Bool-cases (other === thread)) [
        | inl same ↦ ground (arith, rw same at asked)
        | inr different ↦
            let (nothing, stays, none_new) = act-other thread (withdraws other id) m different in
            taken-reached thread more (withdraw other id m).1 n e (rw stays waits)
              (rw different at asked)
      ]
