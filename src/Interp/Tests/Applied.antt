-- ===== src/Interp/Tests/Applied.antt =====
-- Runs of apply and of texts, and the theorems on them.
use lisptc.Prelude.{Option, none, some, [], ◌∷◌, map, ◌≡◌, refl}
use lisptc.Prelude.Result.{ok, err}
use lisptc.Value.{Value, null, sym, object, array_to_list}
use lisptc.Interp.{plain, applies, Stop, failed, M, ret, ◌>>=◌, set_global}
use lisptc.Interp.Expand.{framed}
use lisptc.Interp.Parts.{eval_now, special_of}
use lisptc.Interp.Forms.{eval_gen, eval_special, eval_setq, call_builtin, perform}
use lisptc.Prelude.Dict
use lisptc.Quasiquote.{qq_quote}
use lisptc.Interp.TopLevel.{Opinion, Run, failed_note, eval_top_level, run_gen}
use lisptc.Interp.Quoted.{perform-apply}
use lisptc.Frames.Plain.{plain as plain_call}
use lisptc.Interp.Tests.{num, host, machine, form, many, raise_limit}

perform-apply_example :
    perform host 9
      (eval_gen host 12)
      applies
      "apply"
      (object 0 ∷ form (num 1 ∷ sym "a" ∷ []) ∷ [])
      machine
    ≡ (framed host
            (object 0)
            (form (map qq_quote (num 1 ∷ sym "a" ∷ [])))
            (plain_call many (num 1 ∷ sym "a" ∷ []))
          >>= call_builtin host 11 (eval_gen host 11) "list" plain)
        machine
perform-apply_example =
    perform-apply host machine refl "apply" "list" many plain 0 9 10 (num 1 ∷ sym "a" ∷ []) refl
      refl (tt, (tt, tt))

-- the hooks have nothing to say of a failed form, and let every form run
abbrev no_opinion : Value → Stop → M (Option Opinion)
no_opinion x s = ret none

abbrev plainly : (Value → Run) → Value → Run
plainly run_form = run_form

run_failing :
    run_gen host no_opinion 40 plainly (ok (num 1) ∷ ok raise_limit ∷ ok (num 2) ∷ []) null machine
    ≡ some (err (failed (sym "limit")), machine, failed_note (failed (sym "limit")) none ∷ [])
unfolding run_gen eval_top_level eval_gen eval_special eval_setq eval_now special_of ◌>>=◌
    set_global Dict.get array_to_list
run_failing = refl
