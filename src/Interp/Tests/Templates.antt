-- ===== src/Interp/Tests/Templates.antt =====
-- Runs of templates in the body of a function.
use lisptc.Prelude.{some, [], ◌∷◌, ◌≡◌, refl}
use lisptc.Prelude.Result.{ok, err}
use lisptc.Value.{Value, sym, object, array_to_list}
use lisptc.Compile.{
  scan_for_args, make_arg_table, scan_items, args_from, add_arg, add_name, variable_of,
}
use lisptc.Frames.{make_frame, plain_frame, take_fixed}
use lisptc.Interp.{
  Machine, failed, handle, ◌>>=◌, get_global, set_global, find_object, new_object, new_frame,
  get_frame,
}
use lisptc.Interp.Expand.{
  mapcar, frame_of, expand_macros, compile_func, compile_inners, macro_of, macro_object,
}
use lisptc.Interp.Parts.{applicable, copy_rest, eval_now, read_arg, special_of}
use lisptc.Interp.Forms.{
  eval_gen, eval_application, eval_special, prog_n, eval_setq, eval_slots, call_builtin,
}
use lisptc.Prelude.Dict
use lisptc.Quasiquote.{qq_quote, qq_expand, qq_expand0, qq_merge}
use lisptc.Compile.{scan_for_qq}
use lisptc.Interp.Tests.{num, host, machine, form, value_of}

-- ((lambda (x) `(a . ,x)) 5) does not read its parameter, as ((lambda (x) `(a ,x)) 5) does
abbrev template_call : Value → Value
template_call template = form (
    form (sym "lambda" ∷ form (sym "x" ∷ []) ∷ form (sym "quasiquote" ∷ template ∷ []) ∷ [])
    ∷ num 5
    ∷ [])

abbrev with_cons : Machine
with_cons = record machine { globals = ("cons", object 0) ∷ ("list", object 0) ∷ [] }

run_dotted :
    (value_of (
        eval_gen host 40
          (template_call (form (sym "a" ∷ sym "unquote" ∷ sym "x" ∷ [])))
          []
          with_cons)
      ≡ some (err (failed (sym "x"))))
    × (value_of (
          eval_gen host 40
            (template_call (form (sym "a" ∷ form (sym "unquote" ∷ sym "x" ∷ []) ∷ [])))
            []
            with_cons)
        ≡ some (ok (form (sym "a" ∷ num 5 ∷ []))))
unfolding eval_gen eval_application eval_special prog_n eval_setq applicable copy_rest eval_now
    read_arg eval_slots call_builtin special_of handle ◌>>=◌ get_global set_global find_object
    new_object new_frame get_frame frame_of make_frame plain_frame take_fixed compile_func mapcar
    scan_for_args make_arg_table array_to_list expand_macros compile_inners qq_quote macro_of
    macro_object qq_expand qq_expand0 qq_merge scan_for_qq Dict.get Dict.put scan_items args_from
    add_arg add_name variable_of Dict.has
run_dotted = (refl, refl)
