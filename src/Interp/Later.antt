-- ===== src/Interp/Later.antt =====
-- packages/interpreter/src/lisp.ts: what every evaluation keeps of the machine it starts from.
use lisptc.Prelude.{
  ℕ, String, Option, none, some, List, [], ◌∷◌, length, get_elem?, set, ◌≡◌, ◌∙◌, refl, sym, ap,
  arith, ltb, ◌===◌, ===_iff, Bool-cases, if◌then◌else◌, inl, inr, length-set,
}
use lisptc.Prelude.Dict
use lisptc.Prelude.Result.{ok, err}
use lisptc.Value.{Value}
use lisptc.Interp.{
  Env, Object, Machine, failed, crashed, Host, ◌>>=◌, refused_or, get_global, set_global,
  find_object, new_object, new_frame, get_frame, set_frame,
}
use lisptc.Interp.Parts.{write_slot}
use lisptc.Interp.Slots.{set_frame-KeepsFrames}
use lisptc.Interp.Forms.{eval_gen}
use lisptc.Interp.Rel.{IsClosed}
use lisptc.Interp.Rel.Forms.{eval_gen-Rel}
use lisptc.Interp.Kept.{
  IsLater, EndsLater, endless, ends, Keeps, none≢some, get_elem?-append, same, bind-Keeps,
  handle-Keeps,
}

put-free :
    (name other : String) {owner : String} (x : Value) (seals : Dict.Dict String)
    (globals : Dict.Dict Value)
    → Dict.get name seals ≡ none
    → Dict.get other seals ≡ some owner
    → Dict.get other (Dict.put name x globals) ≡ Dict.get other globals
put-free name other x seals globals free taken = elim (Bool-cases (name === other)) [
  | inl e ↦
      absurd (none≢some (sym free ∙ ap (λ k. Dict.get k seals) ((===_iff name other).0 e) ∙ taken))
  | inr e ↦
      Dict.get-put name other x globals ∙ ap (λ b. if b then some x else Dict.get other globals) e
]

-- a global that is not sealed is assigned
assigned-IsLater :
    (name : String) (x : Value) (m : Machine)
    → Dict.get name m.sealed ≡ none
    → IsLater m (record m { globals = Dict.put name x m.globals })
assigned-IsLater name x m free = record {
  seals = refl;
  globals = λ other owner e. put-free name other x m.sealed m.globals free e;
  objects = λ n o e. e;
  frames = λ a n h. h;
}

refused_or-EndsLater :
    (o : Option String) (name : String) (x v : Value) (m : Machine)
    → Dict.get name m.sealed ≡ o
    → EndsLater m (refused_or o (record m { globals = Dict.put name x m.globals }) v m)
refused_or-EndsLater none name x v m e = ends (ok tt) _ (assigned-IsLater name x m e)
refused_or-EndsLater (some owner) name x v m e = same (err (failed v)) m

set_global-Keeps : (name : String) (x : Value) → Keeps (Unit {0}) (set_global name x)
unfolding set_global
set_global-Keeps name x m = refused_or-EndsLater (Dict.get name m.sealed) name x _ m refl

new_object-Keeps : (o : Object) → Keeps Value (new_object o)
unfolding new_object
new_object-Keeps o m = ends _ _ (record {
  seals = refl;
  globals = λ name owner e. refl;
  objects = λ n x e. get_elem?-append m.objects (o ∷ []) n x e;
  frames = λ a n h. h;
})

pub new_frame-Keeps : (xs : List Value) → Keeps ℕ (new_frame xs)
unfolding new_frame
new_frame-Keeps xs m = ends _ _ (record {
  seals = refl;
  globals = λ name owner e. refl;
  objects = λ n x e. e;
  frames = λ a n (ys, found, size). (ys, get_elem?-append m.frames (xs ∷ []) a ys found, size);
})

assigned_frame :
    (a : ℕ) (xs ys : List Value) (m : Machine)
    → get_elem? m.frames a ≡ some xs
    → length ys ≡ length xs
    → IsLater m (record m { frames = set m.frames a ys })
assigned_frame a xs ys m found long = record {
  seals = refl;
  globals = λ name owner e. refl;
  objects = λ n o e. e;
  frames = set_frame-KeepsFrames a xs ys m found long;
}

write_slot-EndsLater :
    (a offset : ℕ) (x : Value) (m : Machine) (o : Option (List Value))
    → get_elem? m.frames a ≡ o
    → EndsLater m (write_slot a offset x o m)
unfolding set_frame
write_slot-EndsLater a offset x m none e = same (err crashed) m
write_slot-EndsLater a offset x m (some xs) e = elim (Bool-cases (ltb offset (length xs))) [
  | inl inside ↦
      rw inside
        (ends (ok tt) _ (assigned_frame a xs (set xs offset x) m e (length-set xs offset x)))
  | inr outside ↦ rw outside (same (err crashed) m)
]

write_slot-Keeps :
    (a offset : ℕ) (x : Value) → Keeps (Unit {0}) (get_frame a >>= write_slot a offset x)
unfolding ◌>>=◌ get_frame
write_slot-Keeps a offset x m = write_slot-EndsLater a offset x m (get_elem? m.frames a) refl

read-Keeps : (name : String) → Keeps (Option Value) (get_global name)
unfolding get_global
read-Keeps name m = same _ m

find-Keeps : (n : ℕ) → Keeps (Option Object) (find_object n)
unfolding find_object
find-Keeps n m = same _ m

get_frame-Keeps : (n : ℕ) → Keeps (Option (List Value)) (get_frame n)
unfolding get_frame
get_frame-Keeps n m = same _ m

-- the hooks and the builtins keep what the evaluator keeps
pub record IsKeeping (host : Host) : Type 0 where
  pub guards : (name : String) (xs : List Value) → Keeps (Unit {0}) (host.guard name xs)
  pub calls : (name : String) (xs : List Value) → Keeps Value (host.call name xs)

pub IsKeeping-IsClosed : {host : Host} → IsKeeping host → IsClosed (λ A c d. Keeps A c) host host
IsKeeping-IsClosed keeping = record {
  on_ret = λ a. same (ok a);
  on_stop = λ s. same (err s);
  on_fuel = λ c m. endless;
  on_bind = bind-Keeps;
  on_handle = λ p q e. handle-Keeps p q;
  on_get_global = read-Keeps;
  on_set_global = set_global-Keeps;
  on_find_object = find-Keeps;
  on_new_object = new_object-Keeps;
  on_new_frame = new_frame-Keeps;
  on_get_frame = get_frame-Keeps;
  on_write_slot = write_slot-Keeps;
  on_error = λ s. same (err _);
  on_guard = keeping.guards;
  on_call = λ name xs. bind-Keeps (keeping.guards name xs) (λ _. keeping.calls name xs);
}

-- An evaluation under hooks and builtins that keep the seals, the sealed globals, the functions and the
-- frames keeps them too, however it ends: a sealed global has the value it had, no `setq` changes it,
-- a function that was made stays what it is, and a frame keeps its number of slots.
pub eval_gen-EndsLater :
    (host : Host)
    → IsKeeping host
    → (n : ℕ) (x : Value) (env : Env) (m : Machine) → EndsLater m (eval_gen host n x env m)
eval_gen-EndsLater host keeping n x env =
    eval_gen-Rel (IsKeeping-IsClosed keeping) n n (omega arith) x env
