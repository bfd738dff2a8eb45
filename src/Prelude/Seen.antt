-- ===== src/Prelude/Seen.antt =====
-- The names that a walk has seen, and the entries of a map that it has not.
use Prim.Native.Nat.{◌≤◌, ◌<◌}
use Prim.Native.String.{String}
use mathlib.Core.Path.{◌≡◌, ap, ◌∙◌}
use mathlib.Core.Bool.{Bool, true, false, not}
use mathlib.Core.Option.{some}
use mathlib.Core.List.{List, [], ◌∷◌}
use native.Mathlib.Omega.{arith}
use lisptc.Prelude.Tests.{◌===◌, ===_iff}
use lisptc.Prelude.Lists.{length, filter, any}
use lisptc.Prelude.Dict.{Dict, get}

abbrev pub listed : String → List String → Bool
listed name names = any (λ other. other === name) names

-- the entries whose keys were not seen yet
pub unseen {ℓ} : {V : Type ℓ} → List String → Dict V → Dict V
unseen seen m = filter (λ e. not (listed e.0 seen)) m

length-unseen {ℓ} :
    {V : Type ℓ} (at : String) (seen : List String) (m : Dict V)
    → length (unseen (at ∷ seen) m) ≤ length (unseen seen m)
unfolding unseen
length-unseen at seen [] = omega arith
length-unseen at seen ((id, v) ∷ m) = ground (arith, length-unseen at seen m)

pub length-unseen_new {ℓ} :
    {V : Type ℓ} (at : String) (seen : List String) (m : Dict V) (v : V)
    → listed at seen ≡ false
    → get at m ≡ some v
    → length (unseen (at ∷ seen) m) < length (unseen seen m)
unfolding unseen get
length-unseen_new at seen [] v new h = ground arith
length-unseen_new at seen ((id, held) ∷ m) v new h =
    let same : (id === at) ≡ true → listed id seen ≡ false =
      λ e. ap (λ k. listed k seen) ((===_iff id at).0 e) ∙ new in
    ground (
      arith,
      length-unseen at seen m,
      length-unseen_new at seen m v new,
      ===_iff id at,
      ===_iff at id,
      same,
      h,
    )

pub length-unseen_all {ℓ} :
    {V : Type ℓ} (seen : List String) (m : Dict V) → length (unseen seen m) ≤ length m
unfolding unseen
length-unseen_all seen [] = omega arith
length-unseen_all seen ((id, v) ∷ m) = ground (arith, length-unseen_all seen m)
