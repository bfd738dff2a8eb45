-- ===== src/Mailbox.antt =====
-- packages/ai/src/mailbox.ts: the envelopes that wait for a thread, in memory.
pub mod Fifo
pub mod Served
mod Tests
use lisptc.Prelude.{
  ℕ, zero, suc, String, Bool, true, false, Option, none, some, List, [], ◌∷◌, ◌++◌, take, drop,
  ◌===◌, if◌then◌else◌,
}
use lisptc.Prelude.Dict
use lisptc.Prelude.Dict.{Dict}

-- `body` is the rest of an envelope: its kind, its text and where it comes from.
pub record Envelope {ℓ} (B : Type ℓ) : Type ℓ where
  pub id : String
  pub body : B

abbrev pub Mailbox {ℓ} : Type ℓ → Type ℓ
Mailbox B = Dict (List (Envelope B))

module _ {ℓ} {B : Type ℓ} where
  abbrev pub or_nobody : Option (List (Envelope B)) → List (Envelope B)
  or_nobody none = []
  or_nobody (some queue) = queue

  -- a queue is never kept empty
  abbrev pub keep : String → List (Envelope B) → Mailbox B → Mailbox B
  keep thread [] m = Dict.delete thread m
  keep thread (e ∷ queue) m = Dict.put thread (e ∷ queue) m

  unfoldable pub post : String → Envelope B → Mailbox B → Mailbox B
  post thread e m = Dict.put thread (or_nobody (Dict.get thread m) ++ e ∷ []) m

  -- `splice(0, max)`: what it takes and what it leaves, everything being taken without a bound
  abbrev pub first : Option ℕ → List (Envelope B) → List (Envelope B)
  first none queue = queue
  first (some max) queue = take max queue

  abbrev pub after_first : Option ℕ → List (Envelope B) → List (Envelope B)
  after_first none queue = []
  after_first (some max) queue = drop max queue

  abbrev pub take_found :
      String → Option ℕ → Option (List (Envelope B)) → Mailbox B → List (Envelope B) × Mailbox B
  take_found thread max none m = ([], m)
  take_found thread max (some queue) m = (first max queue, keep thread (after_first max queue) m)

  unfoldable pub take_envelopes : String → Option ℕ → Mailbox B → List (Envelope B) × Mailbox B
  take_envelopes thread max m = take_found thread max (Dict.get thread m) m

  -- the queue without the first envelope of an id, if one has it
  abbrev pub behind : Envelope B → Option (List (Envelope B)) → Option (List (Envelope B))
  behind e none = none
  behind e (some queue) = some (e ∷ queue)

  unfoldable pub remove : String → List (Envelope B) → Option (List (Envelope B))
  remove id [] = none
  remove id (e ∷ queue) =
      let later = remove id queue in if e.id === id then some queue else behind e later

  abbrev pub withdraw_found : String → Option (List (Envelope B)) → Mailbox B → Bool × Mailbox B
  withdraw_found thread none m = (false, m)
  withdraw_found thread (some queue) m = (true, keep thread queue m)

  unfoldable pub withdraw : String → String → Mailbox B → Bool × Mailbox B
  withdraw thread id m = withdraw_found thread (remove id (or_nobody (Dict.get thread m))) m
