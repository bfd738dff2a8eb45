-- ===== src/Interp/Calls.antt =====
-- packages/interpreter/src/lisp.ts: the frame in which the body of a called function runs.
use mathlib.Core.Path.{subst}
use lisptc.Prelude.{
  ℕ, zero, suc, ◌-◌, ◌<◌, ◌≡◌, refl, ap, sym, ◌∙◌, String, Bool, true, false, Option, none, some,
  List, [], ◌∷◌, if◌then◌else◌, arith,
}
use lisptc.Prelude.Result.{Result, ok, err}
use lisptc.Value.{Value, cell}
use lisptc.Frames.{has_keys}
use lisptc.Compile.{ArgTable, make_arg_table, scan_for_args}
use lisptc.Compile.Params.{IsArgTable, make_arg_table-IsArgTable}
use lisptc.Compile.Rest.{IsRestLast, make_arg_table-IsRestLast}
use lisptc.Compile.Scoped.{Slots, HasSlot}
use lisptc.Interp.{Env, Code, Machine, Stop, M, Host, bound, ◌>>=◌}
use lisptc.Interp.Expand.{func_of, compile_func, compile_inners, expand_macros, next_list}
use lisptc.Interp.Parts.{Next, tail, value, of_closure}
use lisptc.Interp.Forms.{apply_head, eval_gen}
use lisptc.Interp.Slots.{Fits, Fits-KeepsFrames, IsAccessible, read_arg-write_arg}
use lisptc.Interp.Kept.{IsLater, IsLater-refl, EndsLater, ends}
use lisptc.Interp.Later.{IsKeeping, eval_gen-EndsLater}
use lisptc.Interp.Gives.{Gives, gives, any, bound-Gives}
use lisptc.Interp.Arguments.{new_frame-Gives, body_form-Keeps, eval_frame-Gives}

-- the evaluator goes on in an environment that has the slots of the scopes
abbrev pub Enters : Slots → Next → Machine → Type 0
Enters ns (tail x env) m = Fits m env ns
Enters ns (value x) m = ⊥

arity_slots :
    (has_rest : Bool) (arity : ℕ)
    → (has_rest ≡ true → 0 < arity)
    → (let fixed = if has_rest then arity - 1 else arity in if has_rest then suc fixed else fixed)
      ≡ arity
arity_slots true arity h = omega (arith, h refl)
arity_slots false arity h = refl

keyed_plain :
    (has_rest keyed : Bool) (keys : List String)
    → (has_rest ≡ true → keyed ≡ false)
    → (keyed ≡ false → keys ≡ [])
    → has_keys keys ≡ true
    → has_rest ≡ false
keyed_plain false keyed keys h k named = refl
keyed_plain true keyed keys h k named = absurd (cc (ap has_keys (k (h refl)), named))

module _ (host : Host) (keeping : IsKeeping host) (n : ℕ) where
  -- a call of a closure whose parameters makeArgTable has read
  closure_call-Gives :
      (t : ArgTable) (body k fn args : Value) (captured env : Env) (ns : Slots) (m : Machine)
      → IsArgTable t
      → IsRestLast t
      → Fits m captured ns
      → Gives m (Enters (t.arity ∷ ns)) (
          apply_head host n
            (eval_gen host n)
            (of_closure (record { func = func_of host (eval_gen host n) t; body = body }) captured)
            k
            fn
            args
            env
            m)
  unfolding ◌>>=◌
  closure_call-Gives t body k fn args captured env ns m (_, _, _, none_yet) last fits =
      let plain = keyed_plain t.has_rest t.keyed t.keys (λ e. (last e).1) none_yet in
      let func = func_of host (eval_gen host n) t in
      bound-Gives (eval_frame-Gives host keeping n func fn args env m plain) (λ frame next p long.
        bound-Gives (new_frame-Gives frame next) (λ a later q (xs, found, size).
          bound-Gives (any (body_form-Keeps host keeping n (a ∷ captured) body later)) (λ x end r _.
            gives (tail x (a ∷ captured)) end (IsLater-refl end) (
              r.frames a t.arity
                  (xs, found, size ∙ long ∙ arity_slots t.has_rest t.arity (λ e. (last e).0)),
              Fits-KeepsFrames m end captured ns
                  (λ b k h. r.frames b k (q.frames b k (p.frames b k h))) fits,
            ))))

-- `P` of the value, where there is one
abbrev OnValue : {A : Type 0} → (A → Type 0) → Option (Result Stop A × Machine) → Type 0
OnValue P (some (ok a, m)) = P a
OnValue P _ = Unit

bound-OnValue :
    {A B : Type 0} (P : B → Type 0) (f : A → M B) (o : Option (Result Stop A × Machine))
    → ((a : A) (m : Machine) → OnValue P (f a m))
    → OnValue P (bound f o)
bound-OnValue P f none k = tt
bound-OnValue P f (some (ok a, m)) k = k a m
bound-OnValue P f (some (err s, m)) k = tt

compile_func-func :
    (host : Host) (ev : Value → Env → M Value) (n : ℕ) (params rest : Value) (t : ArgTable)
    (m : Machine)
    → make_arg_table params ≡ ok t
    → OnValue (λ code. code.func ≡ func_of host ev t) (compile_func host ev n (cell params rest) m)
unfolding compile_func ◌>>=◌
compile_func-func host ev zero params rest t m made = tt
compile_func-func host ev (suc n) params rest t m made = rw made (
    bound-OnValue _ _ (next_list (cell params rest) rest m) (λ body m1.
      bound-OnValue _ _ (expand_macros host ev n (scan_for_args body t.table) 20 m1) (λ expanded m2.
        bound-OnValue _ _ (compile_inners host ev n expanded m2) (λ compiled m3. refl))))

-- A call of a closure that compileFunc has made from a parameter list and a body, under hooks and builtins
-- that keep the seals, the sealed globals, the functions and the frames: where the environment of the closure
-- has the slots of the scopes round it, the evaluator goes on with the body in an environment that has the slots
-- of one more scope, as many as there are parameters, unless the call is stopped or runs out of fuel.
pub closure_call-Enters :
    (host : Host)
    → IsKeeping host
    → (n j : ℕ) (params rest : Value) (t : ArgTable) (code : Code) (m0 m1 : Machine)
    → make_arg_table params ≡ ok t
    → compile_func host (eval_gen host n) j (cell params rest) m0 ≡ some (ok code, m1)
    → (captured : Env) (ns : Slots) (m : Machine) → Fits m captured ns
    → (k fn args : Value) (env : Env)
    → Gives m
        (Enters (t.arity ∷ ns))
        (apply_head host n (eval_gen host n) (of_closure code captured) k fn args env m)
closure_call-Enters host keeping n j params rest t code m0 m1 made compiled captured ns m fits k fn
      args env =
    let same : code.func ≡ func_of host (eval_gen host n) t =
      subst (OnValue (λ c. c.func ≡ func_of host (eval_gen host n) t)) compiled
        (compile_func-func host (eval_gen host n) j params rest t m0 made) in
    subst
      (λ func. Gives m (Enters (t.arity ∷ ns)) (
        apply_head host n (eval_gen host n)
          (of_closure (record { func = func; body = code.body }) captured) k fn args env m))
      (sym same)
      (closure_call-Gives host keeping n t code.body k fn args captured env ns m
        (make_arg_table-IsArgTable params t made) (make_arg_table-IsRestLast params t made) fits)

EndsLater-IsLater :
    {A : Type 0} {m next : Machine} {r : Result Stop A}
    → EndsLater m (some (r, next))
    → IsLater m next
EndsLater-IsLater (ends _ _ p) = p

-- If an environment has the slots of the scopes in a machine, then after every evaluation that begins with that
-- machine, under hooks and builtins that keep the seals, the sealed globals, the functions and the frames, and
-- ends, with a value or not, each slot of the scopes is there: getValue reads a value and changes nothing, and
-- after setValue, which ends, getValue reads the new value, and every frame has as many slots as before.
pub eval_gen-IsAccessible :
    (host : Host)
    → IsKeeping host
    → (n : ℕ) (x : Value) (env : Env) (m next : Machine) (r : Result Stop Value)
    → eval_gen host n x env m ≡ some (r, next)
    → (here : Env) (ns : Slots) (level offset : ℕ) → Fits m here ns
    → HasSlot ns level offset
    → (v : Value) → IsAccessible level offset here next v
eval_gen-IsAccessible host keeping n x env m next r run here ns level offset fits slot v =
    let later =
      EndsLater-IsLater (subst (EndsLater m) run (eval_gen-EndsLater host keeping n x env m)) in
    read_arg-write_arg here v next slot (Fits-KeepsFrames m next here ns later.frames fits)
