-- ===== src/Mailbox/Tests.antt =====
-- Runs on a mailbox, and the theorems on them.
use lisptc.Prelude.{String, true, ◌≡◌, refl, none, some, List, [], ◌∷◌, ◌++◌, get_elem?}
use lisptc.Prelude.Dict
use lisptc.Mailbox.{Envelope, Mailbox, take_envelopes, withdraw, remove}
use lisptc.Mailbox.Fifo.{Action, posts, takes, queue, acts, taken, taken-queue}
use lisptc.Mailbox.Served.{taken-reached}

abbrev letter : String → Envelope String
letter id = record { id = id; body = "hello" }

abbrev waiting : Mailbox String
waiting = ("main", letter "1" ∷ letter "2" ∷ []) ∷ []

abbrev day : List (Action String)
day =
    takes "main" (some 1)
    ∷ posts "other" (letter "4")
    ∷ posts "main" (letter "3")
    ∷ takes "main" (some 1)
    ∷ []

taken-queue_example :
    taken "main" day waiting ++ queue "main" (acts day waiting)
    ≡ letter "1" ∷ letter "2" ∷ letter "3" ∷ []
unfolding Dict.get
taken-queue_example = taken-queue "main" day waiting refl

taken-reached_example : get_elem? (taken "main" day waiting) 1 ≡ some (letter "2")
unfolding Dict.get
taken-reached_example = taken-reached "main" day waiting 1 (letter "2") refl refl

withdraw-waiting : withdraw "main" "1" waiting ≡ (true, ("main", letter "2" ∷ []) ∷ [])
unfolding withdraw remove Dict.get Dict.put
withdraw-waiting = refl

take_envelopes-all : (take_envelopes "main" none waiting).1 ≡ []
unfolding take_envelopes Dict.get Dict.delete
take_envelopes-all = refl
