-- ===== src/Recovery/Kinds.antt =====
-- A value that a kind saves is restored by the same kind.
use mathlib.Core.Path.{subst}
use lisptc.Prelude.{
  String, true, false, ◌≡◌, refl, ap, sym, ◌∙◌, Option, none, some, [], ◌∷◌, All, arith, Bool-cases,
  Option-cases, inl, inr, ◌===◌, ===_iff,
}
use lisptc.Prelude.Dict
use lisptc.Prelude.Dict.{Dict, has-put, has-get}
use lisptc.Prelude.Result.{ok, OnOk, OnOk-then}
use lisptc.Recovery.{
  ValueKind, ForeignValue, Phase, Recovery, claim, add_phase, claims_it, saved_by, encode_by, kind,
  resumable, before_save, after_restore, encode, decode, no_recovery,
}

not_same : (a b : String) → (a === b) ≡ false → (b === a) ≡ false
not_same a b h = ground (arith, ===_iff a b, ===_iff b a)

some-injective {ℓ} : {A : Type ℓ} {x y : A} → some x ≡ some y → x ≡ y
some-injective h = cc

module _ {V D : Type 0} where
  -- a kind stands under its name, and no name twice
  abbrev pub IsKeyed : Dict (ValueKind V D) → Type 0
  IsKeyed [] = Unit
  IsKeyed ((key, k) ∷ kinds) = (k.name ≡ key) × (Dict.has key kinds ≡ false) × IsKeyed kinds

  put-IsKeyed :
      (k : ValueKind V D) (kinds : Dict (ValueKind V D))
      → Dict.has k.name kinds ≡ false
      → IsKeyed kinds
      → IsKeyed (Dict.put k.name k kinds)
  unfolding Dict.put Dict.has
  put-IsKeyed k [] fresh h = (refl, refl, tt)
  put-IsKeyed k ((key, j) ∷ kinds) fresh (named, alone, h) =
      let other : (key === k.name) ≡ false = ground (arith, fresh) in
      let later : Dict.has k.name kinds ≡ false = ground (arith, fresh) in
      rw other (
        named,
        has-put k.name key k kinds ∙ rw (not_same key k.name other) alone,
        put-IsKeyed k kinds later h,
      )

  -- a value that a kind claims and saves is restored as it was
  abbrev pub IsLossless : ValueKind V D → Type 0
  IsLossless k =
      (save : V → D)
      → k.save ≡ some save
      → (v : V) → claims_it k.claims v ≡ true
      → k.restore (save v) ≡ v

  abbrev pub AllLossless : Dict (ValueKind V D) → Type 0
  AllLossless kinds = All (λ e. IsLossless e.1) kinds

  found-restored :
      (name : String) (save : Option (V → D)) (restore : D → V) (v : V) (f : ForeignValue D)
      → ((saver : V → D) → save ≡ some saver → restore (saver v) ≡ v)
      → saved_by name save v ≡ some f
      → (f.tag ≡ name) × (restore f.body ≡ v)
  found-restored name none restore v f lossless e = ground arith
  found-restored name (some saver) restore v f lossless e =
      let same : record { tag = name; body = saver v } ≡ f = some-injective e in
      (sym (ap (λ g. g.tag) same), subst (λ g. restore g.body ≡ v) same (lossless saver refl))

  -- a kind in front does not hide one that stands behind it
  get_behind :
      (key tag : String) (k j : ValueKind V D) (kinds : Dict (ValueKind V D))
      → Dict.has key kinds ≡ false
      → Dict.get tag kinds ≡ some j
      → Dict.get tag ((key, k) ∷ kinds) ≡ some j
  unfolding Dict.get
  get_behind key tag k j kinds alone found = elim (Bool-cases (key === tag)) [
    | inl same ↦
        let there : Dict.has tag kinds ≡ true = has-get tag kinds ∙ rw found refl in
        let absent : Dict.has tag kinds ≡ false =
          subst (λ n. Dict.has n kinds ≡ false) ((===_iff key tag).0 same) alone in
        ground (arith, there, absent)
    | inr other ↦ rw other found
  ]

  stays_found :
      (key : String) (f : ForeignValue D) (v : V) (k : ValueKind V D) (kinds : Dict (ValueKind V D))
      → Dict.has key kinds ≡ false
      → (j : ValueKind V D) × (Dict.get f.tag kinds ≡ some j) × (j.restore f.body ≡ v)
      → (j : ValueKind V D) × (Dict.get f.tag ((key, k) ∷ kinds) ≡ some j) × (j.restore f.body ≡ v)
  stays_found key f v k kinds alone (j, found, back) =
      (j, get_behind key f.tag k j kinds alone found, back)

  encode_by-restored :
      (kinds : Dict (ValueKind V D)) (v : V) (f : ForeignValue D)
      → IsKeyed kinds
      → AllLossless kinds
      → encode_by kinds v ≡ some f
      → (k : ValueKind V D) × (Dict.get f.tag kinds ≡ some k) × (k.restore f.body ≡ v)
  unfolding encode_by Dict.get
  encode_by-restored [] v f keyed lossless e = ground arith
  encode_by-restored ((key, k) ∷ kinds) v f (named, alone, keyed) (good, lossless) e =
      elim (Bool-cases (claims_it k.claims v)) [
        | inr unclaimed ↦
            stays_found key f v k kinds alone
              (encode_by-restored kinds v f keyed lossless (rw unclaimed at e))
        | inl claimed ↦ elim (Option-cases (saved_by k.name k.save v)) [
          | inl unsaved ↦
              stays_found key f v k kinds alone
                (encode_by-restored kinds v f keyed lossless (rw (claimed, unsaved) at e))
          | inr (g, saved) ↦
              let same : g ≡ f = some-injective (rw (claimed, saved) at e) in
              let (tagged, back) =
                found-restored k.name k.save k.restore v f (λ save given. good save given v claimed)
                  (saved ∙ ap some same) in
              let here : (key === f.tag) ≡ true = (===_iff key f.tag).1 (sym (tagged ∙ named)) in
              (k, rw here refl, back)
        ]
      ]

module _ {V D J S : Type 0} where
  -- what registrations that are accepted make of an empty registry
  pub data Registered : Recovery V D J S → Type 0 where
    fresh : Registered no_recovery
    with_kind :
        (k : ValueKind V D) (r next : Recovery V D J S)
        → Registered r
        → kind k r ≡ ok next
        → Registered next
    with_resumable :
        (name : String) (resume : J) (r next : Recovery V D J S)
        → Registered r
        → resumable name resume r ≡ ok next
        → Registered next
    with_save :
        (p : Phase S) (r next : Recovery V D J S)
        → Registered r
        → before_save p r ≡ ok next
        → Registered next
    with_restore :
        (p : Phase S) (r next : Recovery V D J S)
        → Registered r
        → after_restore p r ≡ ok next
        → Registered next

  kind-IsKeyed :
      (k : ValueKind V D) (r : Recovery V D J S)
      → IsKeyed r.kinds
      → OnOk (λ next. IsKeyed next.kinds) (kind k r)
  unfolding kind claim
  kind-IsKeyed k r h = elim (Bool-cases (Dict.has k.name r.kinds)) [
    | inl there ↦ rw there tt
    | inr free ↦ rw free (put-IsKeyed k r.kinds free h)
  ]

  Registered-IsKeyed : (r : Recovery V D J S) → Registered r → IsKeyed r.kinds
  unfolding resumable before_save after_restore
  Registered-IsKeyed _ fresh = tt
  Registered-IsKeyed _ (with_kind k r next h e) =
      subst (OnOk (λ n. IsKeyed n.kinds)) e (kind-IsKeyed k r (Registered-IsKeyed r h))
  Registered-IsKeyed _ (with_resumable name resume r next h e) =
      subst (OnOk (λ n. IsKeyed n.kinds)) e (
        OnOk-then (λ n. IsKeyed n.kinds) (claim r.resumes name resume) _
          (λ resumes. Registered-IsKeyed r h))
  Registered-IsKeyed _ (with_save p r next h e) =
      subst (OnOk (λ n. IsKeyed n.kinds)) e (
        OnOk-then (λ n. IsKeyed n.kinds) (add_phase r.saving p) _
          (λ saving. Registered-IsKeyed r h))
  Registered-IsKeyed _ (with_restore p r next h e) = subst (OnOk (λ n. IsKeyed n.kinds)) e (
      OnOk-then (λ n. IsKeyed n.kinds) (add_phase r.restoring p) _
        (λ restoring. Registered-IsKeyed r h))

  -- In a registry that accepted registrations make, a value that encode saves is restored by decode as it
  -- was, if each kind restores what it claims and saves: the kind that saved it is the one found again.
  pub decode-encode :
      (r : Recovery V D J S) (v : V) (f : ForeignValue D)
      → Registered r
      → AllLossless r.kinds
      → encode v r ≡ some f
      → decode f r ≡ ok v
  unfolding encode decode
  decode-encode r v f h lossless e =
      let (k, found, back) = encode_by-restored r.kinds v f (Registered-IsKeyed r h) lossless e in
      rw found (ap ok back)
