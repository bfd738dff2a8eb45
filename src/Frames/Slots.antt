-- ===== src/Frames/Slots.antt =====
-- The slots of a frame that keywords fill.
use mathlib.Core.Path.{subst}
use lisptc.Prelude.{
  ℕ, zero, suc, ◌+◌, ◌≤◌, ◌≡◌, refl, ap, ◌∙◌, String, Bool, true, false, Option, none, some, List,
  [], ◌∷◌, ◌++◌, map, any, length, set, drop, ◌==◌, ◌===◌, ===_iff, if◌then◌else◌, arith,
  Bool-cases, inl, inr,
}
use lisptc.Value.{Value}
use lisptc.Frames.{offset_of, next_of, mem, below}

abbrev pub is_listed : String → List String → Bool
is_listed name keys = any (λ k. k === name) keys

abbrev pub IsOnce : List String → Type 0
IsOnce [] = Unit
IsOnce (k ∷ keys) = (is_listed k keys ≡ false) × IsOnce keys

abbrev pub with_pair : String → Value → (String → Value) → String → Value
with_pair name x g k = if k === name then x else g k

pub set-append {ℓ} :
    {A : Type ℓ} (xs ys : List A) (i : ℕ) (v : A)
    → set (xs ++ ys) (length xs + i) v ≡ xs ++ set ys i v
set-append [] ys i v = let at : 0 + i ≡ i = omega arith in rw at refl
set-append (x ∷ xs) ys i v =
    let at : length (x ∷ xs) + i ≡ suc (length xs + i) = omega arith in
    rw (at, set-append xs ys i v) refl

next_of-some : (o : Option ℕ) (n : ℕ) → next_of o ≡ some n → (m : ℕ) × (n ≡ suc m) × (o ≡ some m)
next_of-some none n h = ground arith
next_of-some (some m) n h = (m, ground (arith, h), refl)

head_of : {n : ℕ} → some 0 ≡ some n → n ≡ 0
head_of h = ground (arith, h)

offset_of-head :
    (name k : String) (keys : List String) (n : ℕ)
    → (k === name) ≡ true
    → offset_of name (k ∷ keys) ≡ some n
    → n ≡ 0
unfolding offset_of
offset_of-head name k keys n e h = head_of (rw e at h)

offset_of-tail :
    (name k : String) (keys : List String) (n : ℕ)
    → (k === name) ≡ false
    → offset_of name (k ∷ keys) ≡ some n
    → (m : ℕ) × (n ≡ suc m) × (offset_of name keys ≡ some m)
unfolding offset_of
offset_of-tail name k keys n e h = next_of-some (offset_of name keys) n (rw e at h)

pub offset_of-drop :
    (d i : ℕ) (name : String) (keys : List String)
    → offset_of name keys ≡ some (d + i)
    → offset_of name (drop d keys) ≡ some i
unfolding offset_of
offset_of-drop zero i name keys h = let at : 0 + i ≡ i = omega arith in h ∙ ap some at
offset_of-drop (suc d) i name [] h = ground arith
offset_of-drop (suc d) i name (k ∷ keys) h = elim (Bool-cases (k === name)) [
  | inl here ↦ ground (arith, offset_of-head name k keys (suc d + i) here h)
  | inr there ↦
      let (m, e, later) = offset_of-tail name k keys (suc d + i) there h in
      let same : m ≡ d + i = omega (arith, e) in offset_of-drop d i name keys (later ∙ ap some same)
]

map-absent :
    (name : String) (x : Value) (g : String → Value) (keys : List String)
    → is_listed name keys ≡ false
    → map g keys ≡ map (with_pair name x g) keys
map-absent name x g [] h = refl
map-absent name x g (k ∷ keys) h =
    let here : (k === name) ≡ false = ground (arith, h) in
    let later : is_listed name keys ≡ false = ground (arith, h) in
    rw here (ap (λ l. g k ∷ l) (map-absent name x g keys later))

pub set-map :
    (name : String) (x : Value) (g : String → Value) (keys : List String) (i : ℕ)
    → IsOnce keys
    → offset_of name keys ≡ some i
    → set (map g keys) i x ≡ map (with_pair name x g) keys
unfolding offset_of
set-map name x g [] i once h = ground arith
set-map name x g (k ∷ keys) i (alone, once) h = elim (Bool-cases (k === name)) [
  | inl here ↦
      let absent : is_listed name keys ≡ false =
        subst (λ n. is_listed n keys ≡ false) ((===_iff k name).0 here) alone in
      rw (offset_of-head name k keys i here h, here)
        (ap (λ l. x ∷ l) (map-absent name x g keys absent))
  | inr there ↦
      let (m, e, later) = offset_of-tail name k keys i there h in
      rw (e, there) (ap (λ l. g k ∷ l) (set-map name x g keys m once later))
]

pub IsOnce-drop : (d : ℕ) (keys : List String) → IsOnce keys → IsOnce (drop d keys)
IsOnce-drop zero keys h = h
IsOnce-drop (suc d) [] h = tt
IsOnce-drop (suc d) (k ∷ keys) (_, h) = IsOnce-drop d keys h

abbrev pub Covers : ℕ → List ℕ → Type 0
Covers n taken = (m : ℕ) → mem m taken ≡ false → n ≤ m

pub Covers-more : (n k : ℕ) (taken : List ℕ) → Covers n taken → Covers n (k ∷ taken)
Covers-more n k taken h m absent = h m (ground (arith, absent))

pub Covers-below : (n : ℕ) → Covers n (below n)
Covers-below zero m absent = omega arith
Covers-below (suc n) m absent =
    let later : mem m (below n) ≡ false = ground (arith, absent) in
    let other : (n == m) ≡ false = ground (arith, absent) in
    let least : n ≤ m = Covers-below n m later in ground (arith, other, least)
