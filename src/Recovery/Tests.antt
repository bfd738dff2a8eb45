-- ===== src/Recovery/Tests.antt =====
-- Runs of a registry, and the theorem on it.
use mathlib.Core.Path.{subst}
use lisptc.Prelude.{true, ℕ, suc, ◌+◌, ◌-◌, ◌<◌, String, ◌≡◌, refl, none, some, [], ◌∷◌, arith, ltb}
use lisptc.Prelude.Dict
use lisptc.Prelude.Result.{ok, err}
use lisptc.Recovery.{
  decodes, resumer, ValueKind, Phase, already_registered, Recovery, kind, claim, encode, encode_by,
  decode, no_recovery, run_before_save, run_until, run_after_restore, run_all,
}
use lisptc.Recovery.Kinds.{fresh, with_kind, IsLossless, AllLossless, decode-encode}

-- numbers above two are saved one lower
abbrev large : ValueKind ℕ ℕ
large = record {
  name = "large";
  claims = some (λ n. ltb 2 n);
  save = some (λ n. n - 1);
  restore = suc;
}

abbrev with_large : Recovery ℕ ℕ String ℕ
with_large = record { kinds = ("large", large) ∷ []; resumes = []; saving = []; restoring = [] }

kind-large : kind large no_recovery ≡ ok with_large
unfolding kind claim Dict.has Dict.put
kind-large = refl

kind-twice : kind large with_large ≡ err (already_registered "large")
unfolding kind claim Dict.has
kind-twice = refl

encode-large : encode 5 with_large ≡ some (record { tag = "large"; body = 4 })
unfolding encode encode_by
encode-large = refl

large-IsLossless : IsLossless large
large-IsLossless save e v claimed =
    let above : 2 < v = ground (arith, claimed) in
    let back : suc (v - 1) ≡ v = omega (arith, above) in
    let same : (λ (n : ℕ). n - 1) ≡ save = cc in subst (λ s. suc (s v) ≡ v) same back

large-AllLossless : AllLossless with_large.kinds
large-AllLossless = (large-IsLossless, tt)

decode-encode_example : decode (record { tag = "large"; body = 4 }) with_large ≡ ok 5
decode-encode_example =
    decode-encode with_large 5 (record { tag = "large"; body = 4 })
      (with_kind large no_recovery with_large fresh kind-large) large-AllLossless encode-large

-- a phase that adds to the state, and one that throws
abbrev adds : Phase ℕ
adds = record { name = "adds"; run = λ n. (n + 1, none) }

abbrev throws : Phase ℕ
throws = record { name = "throws"; run = λ n. (n, some "no") }

abbrev phased : Recovery ℕ ℕ String ℕ
phased = record no_recovery {
  saving = adds ∷ throws ∷ adds ∷ [];
  restoring = throws ∷ adds ∷ throws ∷ [];
}

run_before_save-phased :
    run_before_save phased 0 ≡ (1, some (record { name = "throws"; reason = "no" }))
unfolding run_before_save run_until
run_before_save-phased = refl

run_after_restore-phased : run_after_restore phased 0 ≡ (
  1,
  record { name = "throws"; reason = "no" } ∷ record { name = "throws"; reason = "no" } ∷ [],
)
unfolding run_after_restore run_all
run_after_restore-phased = refl

decodes-large : decodes "large" with_large ≡ true
unfolding decodes Dict.has
decodes-large = refl

resumer-nothing : resumer "job" with_large ≡ none
unfolding resumer Dict.get
resumer-nothing = refl
