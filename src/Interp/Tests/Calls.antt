-- ===== src/Interp/Tests/Calls.antt =====
-- Runs of calls and of the variables in their frames, and the theorems on them.
use lisptc.Prelude.{◌≡◌, refl, false, some, [], ◌∷◌}
use lisptc.Prelude.Dict
use lisptc.Prelude.Result.{ok}
use lisptc.Value.{Value, null, sym, cell, arg, array_to_list}
use lisptc.Compile.{
  ArgTable, make_arg_table, args_from, rest_arg, add_arg, add_name, variable_of, scan_for_args,
  scan_items,
}
use lisptc.Compile.Scoped.{here}
use lisptc.Interp.{Machine, Code, ◌>>=◌, get_global, find_object, get_frame, set_frame}
use lisptc.Interp.Expand.{
  compile_func, compile_inners, expand_macros, macro_of, macro_object, mapcar,
}
use lisptc.Interp.Parts.{of_closure, write_arg, special_of, eval_now}
use lisptc.Interp.Forms.{apply_head, eval_gen, eval_setq, eval_special}
use lisptc.Interp.Slots.{IsAccessible}
use lisptc.Interp.Gives.{Gives}
use lisptc.Interp.Calls.{Enters, closure_call-Enters, eval_gen-IsAccessible}
use lisptc.Interp.Tests.{num, form, host, host-IsKeeping, machine}

-- a call with one argument is on
abbrev called : Machine
called = record machine { frames = (num 5 ∷ []) ∷ [] }

-- (lambda (x) (list x y)), where `y` is the variable of that call
abbrev body : Value
body = form (form (sym "list" ∷ sym "x" ∷ arg 0 0 "y" ∷ []) ∷ [])

abbrev code : Code
code = record {
  func = record { fixed = 1; has_rest = false; keys = [] };
  body = form (form (sym "list" ∷ arg 0 0 "x" ∷ arg 1 0 "y" ∷ []) ∷ []);
}

abbrev of_x : ArgTable
of_x = record { table = ("x", 0) ∷ []; has_rest = false; arity = 1; keyed = false; keys = [] }

make_arg_table-of_x : make_arg_table (form (sym "x" ∷ [])) ≡ ok of_x
unfolding make_arg_table args_from rest_arg add_arg add_name variable_of array_to_list Dict.put
    Dict.has
make_arg_table-of_x = refl

compile_func-code :
    compile_func host (eval_gen host 9) 9 (cell (form (sym "x" ∷ [])) body) called
    ≡ some (ok code, called)
unfolding compile_func make_arg_table args_from rest_arg add_arg add_name variable_of array_to_list
    Dict.put Dict.has Dict.get scan_for_args scan_items expand_macros compile_inners mapcar macro_of
    macro_object ◌>>=◌ get_global find_object
compile_func-code = refl

closure_call-Enters_example : Gives called (Enters (1 ∷ 1 ∷ [])) (
    apply_head host 9
      (eval_gen host 9)
      (of_closure code (0 ∷ []))
      (sym "f")
      null
      (form (num 3 ∷ []))
      []
      called)
closure_call-Enters_example =
    closure_call-Enters host host-IsKeeping 9 9 (form (sym "x" ∷ [])) body of_x code called called
      make_arg_table-of_x compile_func-code (0 ∷ []) (1 ∷ []) called ((num 5 ∷ [], refl, refl), tt)
      (sym "f") null (form (num 3 ∷ [])) []

-- (setq y 9)
abbrev assigned : Machine
assigned = record machine { frames = (num 9 ∷ []) ∷ [] }

eval_gen-assigned :
    eval_gen host 9 (form (sym "setq" ∷ arg 0 0 "y" ∷ num 9 ∷ [])) (0 ∷ []) called
    ≡ some (ok (num 9), assigned)
unfolding eval_gen eval_special eval_setq special_of write_arg eval_now ◌>>=◌ get_frame set_frame
    array_to_list
eval_gen-assigned = refl

eval_gen-IsAccessible_example : IsAccessible 0 0 (0 ∷ []) assigned (num 2)
eval_gen-IsAccessible_example =
    eval_gen-IsAccessible host host-IsKeeping 9 (form (sym "setq" ∷ arg 0 0 "y" ∷ num 9 ∷ []))
      (0 ∷ []) called assigned (ok (num 9)) eval_gen-assigned (0 ∷ []) (1 ∷ []) 0 0
      ((num 5 ∷ [], refl, refl), tt) (here refl) (num 2)
