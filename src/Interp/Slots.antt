-- ===== src/Interp/Slots.antt =====
-- packages/interpreter/src/func.ts: environments whose frames have the slots that a compiled form names.
use lisptc.Prelude.{
  ℕ, zero, suc, ◌≡◌, refl, ap, sym, ◌∙◌, true, false, some, List, [], ◌∷◌, length, length-set,
  get_elem?, set, ltb, ◌==◌, Bool-cases, inl, inr, arith,
}
use lisptc.Prelude.Result.{ok}
use lisptc.Value.{Value}
use lisptc.Compile.Scoped.{Slots, HasSlot, here, there}
use lisptc.Interp.{Env, Machine, ◌>>=◌, get_frame, set_frame}
use lisptc.Interp.Parts.{read_arg, write_arg}

-- the frame `a` has `n` slots
abbrev pub HasFrame : ℕ → ℕ → Machine → Type 0
HasFrame a n m = (xs : List Value) × (get_elem? m.frames a ≡ some xs) × (length xs ≡ n)

abbrev pub KeepsFrames : Machine → Machine → Type 0
KeepsFrames m next = (a n : ℕ) → HasFrame a n m → HasFrame a n next

-- frame by frame, the environment has the slots of the scopes
abbrev pub Fits : Machine → Env → Slots → Type 0
Fits m [] [] = Unit
Fits m (a ∷ env) (n ∷ ns) = HasFrame a n m × Fits m env ns
Fits m _ _ = ⊥

pub Fits-KeepsFrames :
    (m next : Machine) (env : Env) (ns : Slots)
    → KeepsFrames m next
    → Fits m env ns
    → Fits next env ns
Fits-KeepsFrames m next [] [] keeps h = tt
Fits-KeepsFrames m next (a ∷ env) (n ∷ ns) keeps (h, k) =
    (keeps a n h, Fits-KeepsFrames m next env ns keeps k)
Fits-KeepsFrames m next [] (_ ∷ _) keeps h = elim h [ ]
Fits-KeepsFrames m next (_ ∷ _) [] keeps h = elim h [ ]

get_elem?-set_same :
    {A : Type 0} (xs : List A) (n : ℕ) (x old : A)
    → get_elem? xs n ≡ some old
    → get_elem? (set xs n x) n ≡ some x
get_elem?-set_same [] n x old e = absurd cc
get_elem?-set_same (y ∷ xs) zero x old e = refl
get_elem?-set_same (y ∷ xs) (suc n) x old e = get_elem?-set_same xs n x old e

get_elem?-set_other :
    {A : Type 0} (xs : List A) (n k : ℕ) (x : A)
    → (n == k) ≡ false
    → get_elem? (set xs n x) k ≡ get_elem? xs k
get_elem?-set_other [] n k x h = refl
get_elem?-set_other (y ∷ xs) zero zero x h = ground arith
get_elem?-set_other (y ∷ xs) zero (suc k) x h = refl
get_elem?-set_other (y ∷ xs) (suc n) zero x h = refl
get_elem?-set_other (y ∷ xs) (suc n) (suc k) x h = get_elem?-set_other xs n k x (ground (arith, h))

get_elem?-below :
    {A : Type 0} (xs : List A) (n : ℕ)
    → ltb n (length xs) ≡ true
    → (x : A) × (get_elem? xs n ≡ some x)
get_elem?-below [] n h = ground arith
get_elem?-below (x ∷ xs) zero h = (x, refl)
get_elem?-below (x ∷ xs) (suc n) h = get_elem?-below xs n (ground (arith, h))

-- a frame is assigned one of as many slots
pub set_frame-KeepsFrames :
    (a : ℕ) (xs ys : List Value) (m : Machine)
    → get_elem? m.frames a ≡ some xs
    → length ys ≡ length xs
    → KeepsFrames m (record m { frames = set m.frames a ys })
set_frame-KeepsFrames a xs ys m e long b n (zs, f, size) = elim (Bool-cases (a == b)) [
  | inl same ↦
      let at : a ≡ b = ground (arith, same) in
      let old : some xs ≡ some zs = sym e ∙ ap (λ k. get_elem? m.frames k) at ∙ f in
      let taken : xs ≡ zs = ground (arith, old) in
      (
        ys,
        ap (λ k. get_elem? (set m.frames a ys) k) (sym at) ∙ get_elem?-set_same m.frames a ys xs e,
        long ∙ ap length taken ∙ size,
      )
  | inr apart ↦ (zs, get_elem?-set_other m.frames a b ys apart ∙ f, size)
]

-- the frame of a slot
frame_of_slot :
    {ns : Slots} {level offset : ℕ} (env : Env) (m : Machine)
    → HasSlot ns level offset
    → Fits m env ns
    → (a n : ℕ) × (get_elem? env level ≡ some a) × HasFrame a n m × (ltb offset n ≡ true)
frame_of_slot (a ∷ env) m (here {n} h) (frame, fits) = (a, n, refl, frame, h)
frame_of_slot (a ∷ env) m (there h) (frame, fits) = frame_of_slot env m h fits
frame_of_slot [] m (here h) fits = elim fits [ ]
frame_of_slot [] m (there h) fits = elim fits [ ]

abbrev pub IsAccessible : ℕ → ℕ → Env → Machine → Value → Type 0
IsAccessible level offset env m x =
    ((y : Value) × (read_arg level offset env m ≡ some (ok y, m)))
    × ((next : Machine) × (write_arg level offset x env m ≡ some (ok tt, next))
        × (read_arg level offset env next ≡ some (ok x, next))
        × KeepsFrames m next)

-- what getValue and setValue do with a slot that is there
pub read_arg-write_arg :
    {ns : Slots} {level offset : ℕ} (env : Env) (x : Value) (m : Machine)
    → HasSlot ns level offset
    → Fits m env ns
    → IsAccessible level offset env m x
unfolding read_arg write_arg ◌>>=◌ get_frame set_frame
read_arg-write_arg {level} {offset} env x m h fits =
    let (a, n, at, (xs, found, size), below) = frame_of_slot env m h fits in
    let inside : ltb offset (length xs) ≡ true = ap (ltb offset) size ∙ below in
    let (y, old) = get_elem?-below xs offset inside in
    let next = record m { frames = set m.frames a (set xs offset x) } in
    let framed : get_elem? next.frames a ≡ some (set xs offset x) =
      get_elem?-set_same m.frames a (set xs offset x) xs found in
    let new = get_elem?-set_same xs offset x y old in
    (
      (y, rw (at, found, old) refl),
      (
        next,
        rw (at, found, inside) refl,
        rw (at, framed, new) refl,
        set_frame-KeepsFrames a xs (set xs offset x) m found (length-set xs offset x),
      ),
    )
