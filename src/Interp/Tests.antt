-- ===== src/Interp/Tests.antt =====
-- Runs of the evaluator on a small machine, and the theorems on them.
mod Applied
mod Calls
mod Templates
use lisptc.Prelude.{
  ℕ, String, Bool, true, false, Option, none, some, List, [], ◌∷◌, map, ◌≡◌, ◌⊎◌, inl, inr, refl,
  arith, if◌then◌else◌,
}
use lisptc.Prelude.Int.{pos}
use lisptc.Prelude.Result.{Result, ok, err}
use lisptc.Value.{Value, null, number, integral, sym, object, array_to_list}
use lisptc.Compile.{
  is_sym, scan_for_args, make_arg_table, scan_items, args_from, add_arg, add_name, variable_of,
}
use lisptc.Frames.{Func, make_frame, plain_frame, take_fixed}
use lisptc.Interp.{
  plain, applies, runs_loop_body, builtin, Machine, Stop, failed, held, crashed, M, Site, call_site,
  list_site, Host, ret, stop, handle, ◌>>=◌, get_global, set_global, find_object, new_object,
  new_frame, get_frame,
}
use lisptc.Interp.Expand.{
  mapcar, framed, frame_of, expand_macros, compile_func, compile_inners, macro_of, macro_object,
  expand_with, run_forms, expand_try,
}
use lisptc.Interp.Parts.{try_parts, applicable, copy_rest, eval_now, read_arg, special_of}
use lisptc.Interp.Forms.{
  eval_gen, eval_application, eval_special, eval_try, run_handler, prog_n, eval_setq, eval_slots,
  call_builtin, eval_cond, perform,
}
use lisptc.Prelude.Dict
use lisptc.Quasiquote.{qq_quote}
use lisptc.Interp.Runs.{SameAllowed, eval_gen-refused, eval_gen-held}
use lisptc.Interp.Rel.Unless.{IsCut, on_hold, Agrees}
use lisptc.Interp.TopLevel.{Opinion, Run, failed_note, followed, eval_top_level, run_gen}
use lisptc.Interp.Quoted.{perform-apply}
use lisptc.Frames.Plain.{plain as plain_call}
use lisptc.Interp.Kept.{EndsLater, ends, IsLater-refl}
use lisptc.Interp.Later.{IsKeeping, eval_gen-EndsLater}

abbrev pub num : ℕ → Value
num n = number (integral (pos n))

abbrev site_value : Site → Value
site_value (call_site e fn args) = fn
site_value (list_site e params) = params

-- the hooks refuse `shell`
abbrev refuse_shell : String → List Value → M (Unit {0})
refuse_shell name xs = if is_sym "shell" (sym name) then stop (failed (sym name)) else ret tt

abbrev first_slot : List Value → M Value
first_slot [] = stop crashed
first_slot (x ∷ xs) = ret x

-- every builtin returns its first slot
abbrev frames_back : String → List Value → M Value
frames_back name xs = first_slot xs

abbrev pub host : Host
host = record { call = frames_back; guard = refuse_shell; error_value = site_value }

-- the same, with a `shell` that crashes
abbrev crash_shell : String → List Value → M Value
crash_shell name xs = if is_sym "shell" (sym name) then stop crashed else first_slot xs

abbrev crashing : Host
crashing = record { call = crash_shell; guard = refuse_shell; error_value = site_value }

abbrev many : Func
many = record { fixed = 0; has_rest = true; keys = [] }

abbrev two : Func
two = record { fixed = 2; has_rest = false; keys = [] }

abbrev pub machine : Machine
machine = record {
  globals =
      ("list", object 0)
      ∷ ("shell", object 1)
      ∷ ("apply", object 2)
      ∷ ("_run-loop-body", object 3)
      ∷ ("limit", num 7)
      ∷ [];
  sealed = ("limit", "core") ∷ [];
  objects =
      builtin "list" many plain
      ∷ builtin "shell" many plain
      ∷ builtin "apply" two applies
      ∷ builtin "_run-loop-body" (record { fixed = 1; has_rest = false; keys = [] }) runs_loop_body
      ∷ [];
  frames = [];
}

abbrev pub form : List Value → Value
form xs = array_to_list xs

-- (try (shell 1) (catch (e) (list e 2)))
abbrev caught : Value
caught = form (
    sym "try"
    ∷ form (sym "shell" ∷ num 1 ∷ [])
    ∷ form (sym "catch" ∷ form (sym "e" ∷ []) ∷ form (sym "list" ∷ sym "e" ∷ num 2 ∷ []) ∷ [])
    ∷ [])

abbrev value_of : Option (Result Stop Value × Machine) → Option (Result Stop Value)
value_of none = none
value_of (some (r, m)) = some r

abbrev run : Value → Option (Result Stop Value)
run x = value_of (eval_gen host 40 x [] machine)

abbrev x3 : Value
x3 = form (
    form (sym "lambda" ∷ form (sym "x" ∷ []) ∷ form (sym "list" ∷ sym "x" ∷ sym "limit" ∷ []) ∷ [])
    ∷ num 3
    ∷ [])

abbrev raise_limit : Value
raise_limit = form (sym "setq" ∷ sym "limit" ∷ num 8 ∷ [])

abbrev applied : Value
applied =
    form (sym "apply" ∷ sym "list" ∷ form (sym "quote" ∷ form (sym "a" ∷ num 1 ∷ []) ∷ []) ∷ [])

abbrev looped_once : Value
looped_once = form (sym "_run-loop-body" ∷ form (sym "lambda" ∷ null ∷ num 1 ∷ []) ∷ [])

-- (progn (setq swap (macro (a b) (list b a))) (swap 5 list))
abbrev swapped : Value
swapped = form (
    sym "progn"
    ∷ form (
        sym "setq"
        ∷ sym "swap"
        ∷ form (
            sym "macro"
            ∷ form (sym "a" ∷ sym "b" ∷ [])
            ∷ form (sym "list" ∷ sym "b" ∷ sym "a" ∷ [])
            ∷ [])
        ∷ [])
    ∷ form (sym "swap" ∷ num 5 ∷ sym "list" ∷ [])
    ∷ [])

runs :
    (run caught ≡ some (ok (form (sym "shell" ∷ num 2 ∷ []))))
    × (run x3 ≡ some (ok (form (num 3 ∷ num 7 ∷ []))))
    × (run raise_limit ≡ some (err (failed (sym "limit"))))
    × (run applied ≡ some (ok (form (sym "a" ∷ num 1 ∷ []))))
    × (run looped_once ≡ some (ok (form (null ∷ []))))
    × (run swapped ≡ some (ok (form (num 5 ∷ []))))
unfolding eval_gen eval_application eval_special eval_try try_parts run_handler prog_n eval_setq
    applicable copy_rest eval_now read_arg eval_slots call_builtin special_of handle ◌>>=◌
    get_global set_global find_object new_object new_frame get_frame frame_of make_frame plain_frame
    take_fixed compile_func mapcar scan_for_args make_arg_table array_to_list expand_macros
    compile_inners qq_quote macro_of macro_object expand_with run_forms eval_cond expand_try
    Dict.get Dict.put scan_items args_from add_arg add_name variable_of Dict.has
runs = (refl, refl, refl, refl, refl, refl)

allowed_same :
    (b : Bool) (v : Value) (xs : List Value) (m next : Machine)
    → (if b then stop (failed v) else ret tt) m ≡ some (ok tt, next)
    → first_slot xs next ≡ (if b then stop crashed else first_slot xs) next
allowed_same true v xs m next e = absurd cc
allowed_same false v xs m next e = refl

held_or_same :
    (b : Bool) (m : Machine)
    → IsCut (Unit {0}) ((if b then stop held else ret tt) m)
      ⊎ ((if b then stop held else ret tt) m ≡ some (ok tt, m))
held_or_same true m = inl (on_hold m)
held_or_same false m = inr refl

guard_kept : (b : Bool) (s : Stop) (m : Machine) → EndsLater m ((if b then stop s else ret tt) m)
guard_kept true s m = ends _ m (IsLater-refl m)
guard_kept false s m = ends _ m (IsLater-refl m)

host-SameAllowed : SameAllowed host crashing
host-SameAllowed = record {
  errors = λ s. refl;
  guards = λ name xs m. refl;
  calls = λ name xs m next. allowed_same (is_sym "shell" (sym name)) (sym name) xs m next;
}

slot_kept : (xs : List Value) (m : Machine) → EndsLater m (first_slot xs m)
slot_kept [] m = ends _ m (IsLater-refl m)
slot_kept (x ∷ xs) m = ends _ m (IsLater-refl m)

-- a guard that holds `shell`, and one that lets it pass
abbrev hold_shell : String → List Value → M (Unit {0})
hold_shell name xs = if is_sym "shell" (sym name) then stop held else ret tt

abbrev holding : Host
holding = record { call = frames_back; guard = hold_shell; error_value = site_value }

abbrev letting : Host
letting = record { call = frames_back; guard = λ name xs. ret tt; error_value = site_value }

holding-Agrees : Agrees (λ A. IsCut A) holding letting
holding-Agrees = record {
  errors = λ s. refl;
  guards = λ name xs. held_or_same (is_sym "shell" (sym name));
  calls = λ name xs m next e. inr refl;
}

pub host-IsKeeping : IsKeeping host
host-IsKeeping = record {
  guards = λ name xs. guard_kept (is_sym "shell" (sym name)) (failed (sym name));
  calls = λ name xs. slot_kept xs;
}

eval_gen-EndsLater_example : EndsLater machine (eval_gen host 40 raise_limit [] machine)
eval_gen-EndsLater_example = eval_gen-EndsLater host host-IsKeeping 40 raise_limit [] machine

eval_gen-refused_example :
    eval_gen host 40 caught [] machine ≡ eval_gen crashing 40 caught [] machine
eval_gen-refused_example = eval_gen-refused host crashing host-SameAllowed 40 caught [] machine

abbrev held_result : Result Stop Value × Machine
held_result = (err held, machine)

run_held : eval_gen holding 40 caught [] machine ≡ some held_result
unfolding eval_gen eval_application eval_special eval_try try_parts eval_setq applicable copy_rest
    eval_now eval_slots call_builtin special_of handle ◌>>=◌ get_global set_global find_object
    frame_of make_frame plain_frame take_fixed mapcar array_to_list Dict.get
run_held = refl

eval_gen-held_example :
    ((next : Machine) × (held_result ≡ (err held, next)))
    ⊎ (eval_gen letting 40 caught [] machine ≡ some held_result)
eval_gen-held_example =
    eval_gen-held holding letting holding-Agrees 40 caught [] machine held_result run_held

abbrev limit_result : Result Stop Value × Machine
limit_result = (err (failed (sym "limit")), machine)

run_limit : eval_gen host 40 raise_limit [] machine ≡ some limit_result
unfolding eval_gen eval_application eval_special eval_try try_parts eval_setq applicable copy_rest
    eval_now eval_slots call_builtin special_of handle ◌>>=◌ get_global set_global find_object
    frame_of make_frame plain_frame take_fixed mapcar array_to_list Dict.get
run_limit = refl
