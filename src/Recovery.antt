-- ===== src/Recovery.antt =====
-- packages/interpreter/src/recovery.ts: what a saved session needs of the values that are no data. `V`
-- are the values, `D` the data kept for one, `J` what resumes a job, and `S` the state that the phases
-- work on. The texts of the errors are left out but for the name they give.
pub mod Kinds
mod Tests
use lisptc.Prelude.{
  ℕ, String, Bool, true, false, Option, none, some, List, [], ◌∷◌, ◌++◌, any, ◌===◌, if◌then◌else◌,
}
use lisptc.Prelude.Dict
use lisptc.Prelude.Dict.{Dict}
use lisptc.Prelude.Result.{Result, ok, err, ◌>>=◌}

pub record ValueKind (V D : Type 0) : Type 0 where
  pub name : String
  pub claims : Option (V → Bool)
  pub save : Option (V → D)
  pub restore : D → V

pub record ForeignValue (D : Type 0) : Type 0 where
  pub tag : String
  pub body : D

-- what a phase leaves, and the message of what it throws
pub record Phase (S : Type 0) : Type 0 where
  pub name : String
  pub run : S → S × Option String

pub record RecoveryFailure : Type 0 where
  pub name : String
  pub reason : String

pub data RecoveryError : Type 0 where
  already_registered no_kind : String → RecoveryError

pub record Recovery (V D J S : Type 0) : Type 0 where
  pub kinds : Dict (ValueKind V D)
  pub resumes : Dict J
  pub saving : List (Phase S)
  pub restoring : List (Phase S)

unfoldable pub claim : {T : Type 0} → Dict T → String → T → Result RecoveryError (Dict T)
claim into name value =
    if Dict.has name into then err (already_registered name) else ok (Dict.put name value into)

unfoldable pub add_phase :
    {S : Type 0} → List (Phase S) → Phase S → Result RecoveryError (List (Phase S))
add_phase into phase =
    if any (λ p. p.name === phase.name) into
    then err (already_registered phase.name)
    else ok (into ++ phase ∷ [])

abbrev pub reverse : {T : Type 0} → List T → List T
reverse [] = []
reverse (x ∷ xs) = reverse xs ++ x ∷ []

abbrev pub claims_it : {V : Type 0} → Option (V → Bool) → V → Bool
claims_it none v = false
claims_it (some claims) v = claims v

abbrev pub saved_by : {V D : Type 0} → String → Option (V → D) → V → Option (ForeignValue D)
saved_by name none v = none
saved_by name (some save) v = some (record { tag = name; body = save v })

abbrev pub or_later :
    {D : Type 0} → Option (ForeignValue D) → Option (ForeignValue D) → Option (ForeignValue D)
or_later (some found) later = some found
or_later none later = later

abbrev pub stopped_by : {A : Type 0} → Option String → A → (String → A) → A
stopped_by none onward stop = onward
stopped_by (some reason) onward stop = stop reason

abbrev pub failures_of : String → Option String → List RecoveryFailure
failures_of name none = []
failures_of name (some reason) = record { name = name; reason = reason } ∷ []

module _ {V D : Type 0} where
  unfoldable pub encode_by : Dict (ValueKind V D) → V → Option (ForeignValue D)
  encode_by [] v = none
  encode_by ((_, kind) ∷ kinds) v =
      let later = encode_by kinds v in
      if claims_it kind.claims v then or_later (saved_by kind.name kind.save v) later else later

  abbrev pub restored : String → Option (ValueKind V D) → D → Result RecoveryError V
  restored tag none body = err (no_kind tag)
  restored tag (some kind) body = ok (kind.restore body)

module _ {S : Type 0} where
  -- the phases of a save, up to the first that throws
  unfoldable pub run_until : List (Phase S) → S → S × Option RecoveryFailure
  run_until [] s = (s, none)
  run_until (phase ∷ phases) s =
      let later = run_until phases (phase.run s).0 in
      stopped_by (phase.run s).1 later
        (λ reason. ((phase.run s).0, some (record { name = phase.name; reason = reason })))

  -- the phases of a restore, all of them
  unfoldable pub run_all : List (Phase S) → S → S × List RecoveryFailure
  run_all [] s = (s, [])
  run_all (phase ∷ phases) s =
      let later = run_all phases (phase.run s).0 in
      (later.0, failures_of phase.name (phase.run s).1 ++ later.1)

module _ {V D J S : Type 0} where
  unfoldable pub kind : ValueKind V D → Recovery V D J S → Result RecoveryError (Recovery V D J S)
  kind k r = claim r.kinds k.name k >>= λ kinds. ok (record r { kinds = kinds })

  unfoldable pub resumable : String → J → Recovery V D J S → Result RecoveryError (Recovery V D J S)
  resumable name resume r =
      claim r.resumes name resume >>= λ resumes. ok (record r { resumes = resumes })

  unfoldable pub before_save : Phase S → Recovery V D J S → Result RecoveryError (Recovery V D J S)
  before_save p r = add_phase r.saving p >>= λ saving. ok (record r { saving = saving })

  unfoldable pub after_restore :
      Phase S → Recovery V D J S → Result RecoveryError (Recovery V D J S)
  after_restore p r =
      add_phase r.restoring p >>= λ restoring. ok (record r { restoring = restoring })

  unfoldable pub encode : V → Recovery V D J S → Option (ForeignValue D)
  encode v r = encode_by r.kinds v

  unfoldable pub decode : ForeignValue D → Recovery V D J S → Result RecoveryError V
  decode f r = restored f.tag (Dict.get f.tag r.kinds) f.body

  abbrev pub no_recovery : Recovery V D J S
  no_recovery = record { kinds = []; resumes = []; saving = []; restoring = [] }

  unfoldable pub decodes : String → Recovery V D J S → Bool
  decodes tag r = Dict.has tag r.kinds

  unfoldable pub resumer : String → Recovery V D J S → Option J
  resumer name r = Dict.get name r.resumes

  unfoldable pub run_before_save : Recovery V D J S → S → S × Option RecoveryFailure
  run_before_save r s = run_until (reverse r.saving) s

  unfoldable pub run_after_restore : Recovery V D J S → S → S × List RecoveryFailure
  run_after_restore r s = run_all r.restoring s
