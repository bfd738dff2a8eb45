-- ===== src/Channels/Tests.antt =====
-- Runs of an emission, and the theorems on it.
use lisptc.Prelude.{
  ℕ, String, Bool, true, Option, none, some, List, [], ◌∷◌, ◌++◌, All, ◌≡◌, refl, ◌==◌, ==_iff,
  ◌===◌, if◌then◌else◌,
}
use lisptc.Prelude.Dict
use lisptc.Prelude.Result.{Result, ok, err}
use lisptc.Channels.{
  Audience, user, model, harness, Envelope, Channels, Delivery, heard, sent, stamped, includes,
  or_none, note_topic, envelopes, groups_of, add_to, emit, emit_notes, deliver, call_listeners,
  call_transports,
}
use lisptc.Channels.Addressing.{told, told-envelopes}
use lisptc.Channels.Delivering.{receivers}
use lisptc.Channels.Sending.{IsNote, emit_lem}

-- the same for the user and the model, nothing for the harness
abbrev both : Audience → Option ℕ
both user = some 7
both model = some 7
both harness = none

told-envelopes_example : told model (envelopes (λ m n. m == n) "output" both) ≡ 7 ∷ []
told-envelopes_example = told-envelopes (λ m n. m == n) "output" (λ m n. (==_iff m n).0) both model

grouped :
    envelopes (λ m n. m == n) "output" both
    ≡ record { topic = "output"; to = user ∷ model ∷ []; step = none; payload = 7 } ∷ []
unfolding envelopes groups_of add_to
grouped = refl

-- listener 2 throws, transport 9 fails
abbrev hear : ℕ → Envelope ℕ → Result String (Unit {0})
hear n e = if n == 2 then err "no" else ok tt

abbrev send : ℕ → Envelope ℕ → Result String Bool
send t e = if t == 9 then err "gone" else ok true

abbrev failed : String → String → ℕ
failed topic message = 0

abbrev channels : Channels
channels = record {
  listeners = ("output", 2 ∷ 3 ∷ []) ∷ [];
  anyone = 4 ∷ [];
  transports = 8 ∷ 9 ∷ [];
  step = 5;
}

abbrev output : Envelope ℕ
output = record { topic = "output"; to = user ∷ []; step = none; payload = 7 }

abbrev told_note : Envelope ℕ
told_note = record { topic = "note"; to = model ∷ []; step = some 5; payload = 0 }

run_output : emit hear send failed output channels ≡ (
  receivers channels (stamped 5 output) ++ (heard 4 told_note ∷ sent 8 told_note ∷ []),
  ok (record channels { transports = 8 ∷ [] }),
)
unfolding emit emit_notes deliver call_listeners call_transports Dict.get
run_output = refl

emit_lem_example :
    (notes : List (Delivery ℕ)) × (next : Channels) × (emit hear send failed output channels
      ≡ (receivers channels (stamped 5 output) ++ notes, ok next))
    × All IsNote notes
    × ((output.topic === note_topic) ≡ true → notes ≡ [])
    × (All
          (λ n. hear n (stamped 5 output) ≡ ok tt)
          (or_none (Dict.get "output" channels.listeners) ++ channels.anyone)
        → notes ≡ [])
    × ((t : ℕ) → includes t next.transports ≡ true → send t (stamped 5 output) ≡ ok true)
emit_lem_example = emit_lem hear send failed output channels
