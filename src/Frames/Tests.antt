-- ===== src/Frames/Tests.antt =====
-- Runs of calls, and the theorems on them.
use lisptc.Prelude.{◌≡◌, refl, true, false, [], ◌∷◌, arith}
use lisptc.Prelude.Result.{ok, err}
use lisptc.Value.{null, truth, text, key, array_to_list}
use lisptc.Frames.{
  Func, given_twice, make_frame, keyed_frame, plain_frame, take_fixed, take_values, required,
  offset_of, give,
}
use lisptc.Frames.Plain.{plain, make_frame-plain}
use lisptc.Frames.Keyed.{make_frame-spell}

abbrev with_rest : Func
with_rest = record { fixed = 1; has_rest = true; keys = [] }

abbrev with_keys : Func
with_keys = record { fixed = 3; has_rest = false; keys = "limit" ∷ "deep" ∷ [] }

make_frame-plain_example :
    make_frame with_rest (array_to_list (text "a" ∷ text "b" ∷ []))
    ≡ plain with_rest (text "a" ∷ text "b" ∷ [])
make_frame-plain_example = make_frame-plain with_rest (text "a" ∷ text "b" ∷ []) refl

make_frame-rest :
    make_frame with_rest (array_to_list (text "a" ∷ text "b" ∷ []))
    ≡ ok (text "a" ∷ array_to_list (text "b" ∷ []) ∷ [])
unfolding make_frame plain_frame take_fixed array_to_list
make_frame-rest = refl

make_frame-spell_example :
    make_frame with_keys (array_to_list (text "a" ∷ key "deep" ∷ truth ∷ []))
    ≡ ok (text "a" ∷ null ∷ truth ∷ [])
unfolding required offset_of
make_frame-spell_example =
    make_frame-spell with_keys (text "a" ∷ []) (("deep", truth) ∷ []) refl (refl, (refl, tt))
      (omega arith) (refl, tt) (omega arith) (omega arith) (1, refl, refl, tt)

make_frame-twice :
    make_frame with_keys (array_to_list (text "a" ∷ text "b" ∷ key "limit" ∷ truth ∷ []))
    ≡ err given_twice
unfolding make_frame keyed_frame take_values required offset_of give array_to_list
make_frame-twice = refl
