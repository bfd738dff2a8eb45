-- ===== src/Budget/Charging.antt =====
-- What a charge does to the accounts of a chain.
use lisptc.Prelude.{
  ℕ, zero, suc, ◌≡◌, refl, ap, sym, ◌∙◌, String, Bool, true, false, Option, none, some, List, [],
  ◌∷◌, map, length, ◌===◌, ===_iff, if◌then◌else◌, arith, All, Bool-cases, inl, inr,
}
use lisptc.Prelude.Dict
use lisptc.Prelude.Dict.{Dict}
use lisptc.Budget.{
  Usage, Account, Accounts, Chain, listed, link, chain_from, charged, charge_one, charge_along,
}

abbrev pub map_charged : Usage → Option Account → Option Account
map_charged usage none = none
map_charged usage (some account) = some (charged usage account)

get-charge_one :
    (usage : Usage) (at id : String) (m : Accounts)
    → Dict.get id (charge_one usage at m)
      ≡ (if at === id then map_charged usage (Dict.get id m) else Dict.get id m)
unfolding charge_one Dict.get
get-charge_one usage at id [] = ground arith
get-charge_one usage at id ((other, account) ∷ m) =
    ground (arith, get-charge_one usage at id m, ===_iff other at, ===_iff other id, ===_iff at id)

length-charge_one :
    (usage : Usage) (at : String) (m : Accounts) → length (charge_one usage at m) ≡ length m
unfolding charge_one
length-charge_one usage at [] = refl
length-charge_one usage at ((other, account) ∷ m) = ground (arith, length-charge_one usage at m)

pub length-charge_along :
    (usage : Usage) (ids : List String) (m : Accounts)
    → length (charge_along usage ids m) ≡ length m
unfolding charge_along
length-charge_along usage [] m = refl
length-charge_along usage (at ∷ ids) m =
    length-charge_along usage ids (charge_one usage at m) ∙ length-charge_one usage at m

abbrev pub IsOnce : List String → Type 0
IsOnce [] = Unit
IsOnce (id ∷ ids) = (listed id ids ≡ false) × IsOnce ids

pub get-charge_along :
    (usage : Usage) (ids : List String) (id : String) (m : Accounts)
    → IsOnce ids
    → Dict.get id (charge_along usage ids m)
      ≡ (if listed id ids then map_charged usage (Dict.get id m) else Dict.get id m)
unfolding charge_along
get-charge_along usage [] id m h = refl
get-charge_along usage (at ∷ ids) id m (fresh, h) =
    let same : (at === id) ≡ true → listed id ids ≡ false =
      λ e. ap (λ k. listed k ids) (sym ((===_iff at id).0 e)) ∙ fresh in
    ground (
      arith,
      get-charge_along usage ids id (charge_one usage at m) h,
      get-charge_one usage at id m,
      same,
    )

abbrev pub ids_of : Chain → List String
ids_of c = map (λ e. e.0) c

abbrev pub charged_all : Usage → Chain → Chain
charged_all usage c = map (λ e. (e.0, charged usage e.1)) c

abbrev pub IsUnseen : List String → List String → Type 0
IsUnseen seen ids = All (λ id. listed id seen ≡ false) ids

IsUnseen-tail :
    (at : String) (seen ids : List String) → IsUnseen (at ∷ seen) ids → IsUnseen seen ids
IsUnseen-tail at seen [] h = tt
IsUnseen-tail at seen (id ∷ ids) (h, hs) = (ground (arith, h), IsUnseen-tail at seen ids hs)

listed-IsUnseen :
    (at : String) (seen ids : List String) → IsUnseen (at ∷ seen) ids → listed at ids ≡ false
listed-IsUnseen at seen [] h = refl
listed-IsUnseen at seen (id ∷ ids) (h, hs) =
    ground (arith, listed-IsUnseen at seen ids hs, ===_iff at id, ===_iff id at, h)

-- each account of the chain once, and none that was seen before
abbrev pub IsNew : List String → Chain → Type 0
IsNew seen c = IsUnseen seen (ids_of c) × IsOnce (ids_of c)

link-IsNew :
    (at : String) (seen : List String) (found : Option Account) (above : Option String → Chain)
    → listed at seen ≡ false
    → ((next : Option String) → IsNew (at ∷ seen) (above next))
    → IsNew seen (link at found above)
link-IsNew at seen none above h k = (tt, tt)
link-IsNew at seen (some account) above h k =
    let (unseen, once) = k account.parent in
    ((h, IsUnseen-tail at seen _ unseen), (listed-IsUnseen at seen _ unseen, once))

pub chain_from-IsNew :
    (fuel : ℕ) (at : Option String) (seen : List String) (m : Accounts)
    → IsNew seen (chain_from fuel at seen m)
unfolding chain_from
chain_from-IsNew zero at seen m = (tt, tt)
chain_from-IsNew (suc fuel) none seen m = (tt, tt)
chain_from-IsNew (suc fuel) (some at) seen m = elim (Bool-cases (listed at seen)) [
  | inl old ↦ rw old (tt, tt)
  | inr new ↦ rw new (
      link-IsNew at seen (Dict.get at m) (λ next. chain_from fuel next (at ∷ seen) m) new
        (λ next. chain_from-IsNew fuel next (at ∷ seen) m))
]

-- `after` has the accounts of `ids` charged, and the others as they are in `m`
abbrev pub HasCharged : Usage → List String → Accounts → Accounts → Type 0
HasCharged usage ids m after =
    (id : String)
    → Dict.get id after
      ≡ (if listed id ids then map_charged usage (Dict.get id m) else Dict.get id m)

abbrev pub AllListed : List String → Chain → Type 0
AllListed ids c = All (λ id. listed id ids ≡ true) (ids_of c)

link-charged :
    (usage : Usage) (ids : List String) (at : String) (found after : Option Account)
    (above later : Option String → Chain)
    → after ≡ (if listed at ids then map_charged usage found else found)
    → AllListed ids (link at found above)
    → ((next : Option String)
        → AllListed ids (above next)
        → later next ≡ charged_all usage (above next))
    → link at after later ≡ charged_all usage (link at found above)
unfolding charged
link-charged usage ids at none after above later e h k =
    let gone : after ≡ none = ground (arith, e) in ap (λ a. link at a later) gone
link-charged usage ids at (some account) after above later e (here, h) k =
    let there : after ≡ some (charged usage account) = ground (arith, e, here) in
    ap (λ a. link at a later) there ∙ ap (λ c. (at, charged usage account) ∷ c) (k account.parent h)

pub chain_from-charged :
    (usage : Usage) (ids : List String) (m after : Accounts) (fuel : ℕ) (at : Option String)
    (seen : List String)
    → HasCharged usage ids m after
    → AllListed ids (chain_from fuel at seen m)
    → chain_from fuel at seen after ≡ charged_all usage (chain_from fuel at seen m)
unfolding chain_from
chain_from-charged usage ids m after zero at seen g h = refl
chain_from-charged usage ids m after (suc fuel) none seen g h = refl
chain_from-charged usage ids m after (suc fuel) (some at) seen g h =
    settle (listed at seen) _ _ h (λ below.
      link-charged usage ids at (Dict.get at m) (Dict.get at after)
        (λ next. chain_from fuel next (at ∷ seen) m)
        (λ next. chain_from fuel next (at ∷ seen) after) (g at) below
        (λ next k. chain_from-charged usage ids m after fuel next (at ∷ seen) g k))
  where
    settle :
        (b : Bool) (c d : Chain)
        → AllListed ids (if b then [] else c)
        → (AllListed ids c → d ≡ charged_all usage c)
        → (if b then [] else d) ≡ charged_all usage (if b then [] else c)
    settle true c d h k = refl
    settle false c d h k = k h
