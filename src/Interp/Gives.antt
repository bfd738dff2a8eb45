-- ===== src/Interp/Gives.antt =====
-- packages/interpreter/src/lisp.ts: what a run gives that keeps what every evaluation keeps.
use lisptc.Prelude.{Option, none, some}
use lisptc.Prelude.Result.{Result, ok, err}
use lisptc.Interp.{Machine, Stop, M, bound}
use lisptc.Interp.Kept.{IsLater, IsLater-trans, EndsLater, ends, endless}

-- a run that ends leaves a later machine, and `P` of its value and the machine where there is one
pub data Gives {A : Type 0} (m : Machine) (P : A → Machine → Type 0)
    : Option (Result Stop A × Machine) → Type 0 where
  runs_on : Gives m P none
  stopped : (s : Stop) (next : Machine) → IsLater m next → Gives m P (some (err s, next))
  gives : (a : A) (next : Machine) → IsLater m next → P a next → Gives m P (some (ok a, next))

abbrev pub Any : {A : Type 0} → A → Machine → Type 0
Any a m = Unit

pub any :
    {A : Type 0} {m : Machine} {o : Option (Result Stop A × Machine)}
    → EndsLater m o
    → Gives m Any o
any endless = runs_on
any (ends (ok a) next p) = gives a next p tt
any (ends (err s) next p) = stopped s next p

from :
    {A : Type 0} {m next : Machine} {P : A → Machine → Type 0}
    {o : Option (Result Stop A × Machine)}
    → IsLater m next
    → Gives next P o
    → Gives m P o
from p runs_on = runs_on
from p (stopped s last q) = stopped s last (IsLater-trans p q)
from p (gives a last q h) = gives a last (IsLater-trans p q) h

pub weaken :
    {A : Type 0} {m : Machine} {P Q : A → Machine → Type 0} {o : Option (Result Stop A × Machine)}
    → ((a : A) (next : Machine) → P a next → Q a next)
    → Gives m P o
    → Gives m Q o
weaken k runs_on = runs_on
weaken k (stopped s next p) = stopped s next p
weaken k (gives a next p h) = gives a next p (k a next h)

pub bound-Gives :
    {A B : Type 0} {m : Machine} {P : A → Machine → Type 0} {Q : B → Machine → Type 0} {f : A → M B}
    {o : Option (Result Stop A × Machine)}
    → Gives m P o
    → ((a : A) (next : Machine) → IsLater m next → P a next → Gives next Q (f a next))
    → Gives m Q (bound f o)
bound-Gives runs_on k = runs_on
bound-Gives (stopped s next p) k = stopped s next p
bound-Gives (gives a next p h) k = from p (k a next p h)

pub given :
    {A : Type 0} {m : Machine} {P : A → Machine → Type 0} {a : A} {next : Machine}
    → EndsLater m (some (ok a, next))
    → P a next
    → Gives m P (some (ok a, next))
given (ends _ _ p) h = gives _ _ p h
