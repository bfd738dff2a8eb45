-- ===== src/Interp/Kept.antt =====
-- packages/interpreter/src/lisp.ts: what a machine keeps that a run leaves, and runs one after the other.
use lisptc.Prelude.{
  ℕ, zero, suc, String, Option, none, some, List, [], ◌∷◌, ◌++◌, get_elem?, ◌≡◌, ◌≢◌, ◌∙◌, refl, ap,
}
use lisptc.Prelude.Dict
use lisptc.Prelude.Result.{Result, ok, err}
use lisptc.Interp.{Object, Machine, Stop, M, bound, handled, handle, ◌>>=◌}
use lisptc.Interp.Slots.{KeepsFrames}

-- the seals and the sealed globals are as they were, and functions and the slots of frames stay
pub record IsLater (m next : Machine) : Type 0 where
  pub seals : next.sealed ≡ m.sealed
  pub globals :
      (name owner : String)
      → Dict.get name m.sealed ≡ some owner
      → Dict.get name next.globals ≡ Dict.get name m.globals
  pub objects :
      (n : ℕ) (o : Object) → get_elem? m.objects n ≡ some o → get_elem? next.objects n ≡ some o
  pub frames : KeepsFrames m next

-- a run that ends leaves a later machine
pub data EndsLater {A : Type 0} (m : Machine) : Option (Result Stop A × Machine) → Type 0 where
  endless : EndsLater m none
  ends : (r : Result Stop A) (next : Machine) → IsLater m next → EndsLater m (some (r, next))

abbrev pub Keeps : (A : Type 0) → M A → Type 0
Keeps A c = (m : Machine) → EndsLater m (c m)

pub none≢some : {A : Type 0} {a : A} → none ≢ some a
none≢some e = cc

pub IsLater-refl : (m : Machine) → IsLater m m
IsLater-refl m = record {
  seals = refl;
  globals = λ name owner e. refl;
  objects = λ n o e. e;
  frames = λ a n h. h;
}

pub IsLater-trans : {m next last : Machine} → IsLater m next → IsLater next last → IsLater m last
IsLater-trans p q = record {
  seals = q.seals ∙ p.seals;
  globals = λ name owner e.
      q.globals name owner (ap (λ d. Dict.get name d) p.seals ∙ e) ∙ p.globals name owner e;
  objects = λ n o e. q.objects n o (p.objects n o e);
  frames = λ a n h. q.frames a n (p.frames a n h);
}

pub get_elem?-append :
    {A : Type 0} (xs ys : List A) (n : ℕ) (x : A)
    → get_elem? xs n ≡ some x
    → get_elem? (xs ++ ys) n ≡ some x
get_elem?-append [] ys n x e = absurd cc
get_elem?-append (y ∷ xs) ys zero x e = e
get_elem?-append (y ∷ xs) ys (suc n) x e = get_elem?-append xs ys n x e

pub same : {A : Type 0} (r : Result Stop A) (m : Machine) → EndsLater m (some (r, m))
same r m = ends r m (IsLater-refl m)

pub later :
    {A : Type 0} {m next : Machine} {o : Option (Result Stop A × Machine)}
    → IsLater m next
    → EndsLater next o
    → EndsLater m o
later p endless = endless
later p (ends r last q) = ends r last (IsLater-trans p q)

bound-EndsLater :
    {A B : Type 0} {m : Machine} {f : A → M B} {o : Option (Result Stop A × Machine)}
    → EndsLater m o
    → ((a : A) → Keeps B (f a))
    → EndsLater m (bound f o)
bound-EndsLater endless q = endless
bound-EndsLater (ends (ok a) next p) q = later p (q a next)
bound-EndsLater (ends (err s) next p) q = ends (err s) next p

handled-EndsLater :
    {A : Type 0} {m : Machine} {h : Stop → M A} {o : Option (Result Stop A × Machine)}
    → EndsLater m o
    → ((s : Stop) → Keeps A (h s))
    → EndsLater m (handled h o)
handled-EndsLater endless q = endless
handled-EndsLater (ends (ok a) next p) q = ends (ok a) next p
handled-EndsLater (ends (err s) next p) q = later p (q s next)

pub bind-Keeps :
    {A B : Type 0} {c : M A} {f : A → M B}
    → Keeps A c
    → ((a : A) → Keeps B (f a))
    → Keeps B (c >>= f)
unfolding ◌>>=◌
bind-Keeps p q m = bound-EndsLater (p m) q

pub handle-Keeps :
    {A : Type 0} {c : M A} {h : Stop → M A}
    → Keeps A c
    → ((s : Stop) → Keeps A (h s))
    → Keeps A (handle c h)
unfolding handle
handle-Keeps p q m = handled-EndsLater (p m) q
