-- ===== src/Channels.antt =====
-- packages/interpreter/src/channels.ts: topics, and the channels that carry what is emitted on them to
-- listeners and transports. A listener and a transport are known by a number; `hear` is what a listener
-- does with an envelope and `send` what a transport does, either of which may throw; neither changes the
-- channels.
pub mod Addressing
pub mod Delivering
pub mod Sending
mod Tests
use lisptc.Prelude.{
  ℕ, String, Bool, true, false, not, Option, none, some, List, [], ◌∷◌, ◌++◌, map, filter, any,
  ◌==◌, ◌===◌, ◌||◌, if◌then◌else◌,
}
use lisptc.Prelude.Dict
use lisptc.Prelude.Dict.{Dict}
use lisptc.Prelude.Result.{Result, ok, err}

pub data Audience : Type 0 where
  user model harness : Audience

abbrev pub same_audience : Audience → Audience → Bool
same_audience user user = true
same_audience model model = true
same_audience harness harness = true
same_audience _ _ = false

abbrev pub audiences : List Audience
audiences = user ∷ model ∷ harness ∷ []

abbrev pub note_topic : String
note_topic = "note"

pub record Envelope (P : Type 0) : Type 0 where
  pub topic : String
  pub to : List Audience
  pub step : Option ℕ
  pub payload : P

abbrev pub envelope_of : {P : Type 0} → String → P × List Audience → Envelope P
envelope_of name (p, to) = record { topic = name; to = to; step = none; payload = p }

module _ {P : Type 0} (same : P → P → Bool) where
  -- the groups of `Topic.emit`: payloads in the order of their first audience
  unfoldable pub add_to : Audience → P → List (P × List Audience) → List (P × List Audience)
  add_to a p [] = (p, a ∷ []) ∷ []
  add_to a p ((q, to) ∷ groups) =
      let later = add_to a p groups in
      if same q p then (q, to ++ a ∷ []) ∷ groups else (q, to) ∷ later

  abbrev pub add_addressed :
      Audience → Option P → List (P × List Audience) → List (P × List Audience)
  add_addressed a none groups = groups
  add_addressed a (some p) groups = add_to a p groups

  unfoldable pub groups_of :
      (Audience → Option P) → List Audience → List (P × List Audience) → List (P × List Audience)
  groups_of addressed [] groups = groups
  groups_of addressed (a ∷ rest) groups =
      groups_of addressed rest (add_addressed a (addressed a) groups)

  -- `Topic.emit`: the envelopes that it emits
  unfoldable pub envelopes : String → (Audience → Option P) → List (Envelope P)
  envelopes name addressed = map (envelope_of name) (groups_of addressed audiences [])

pub record Channels : Type 0 where
  pub listeners : Dict (List ℕ)
  pub anyone : List ℕ
  pub transports : List ℕ
  pub step : ℕ

-- a JavaScript `Set`
abbrev pub includes : ℕ → List ℕ → Bool
includes n ns = any (λ m. m == n) ns

abbrev pub include : ℕ → List ℕ → List ℕ
include n ns = if includes n ns then ns else ns ++ n ∷ []

abbrev pub exclude : ℕ → List ℕ → List ℕ
exclude n ns = filter (λ m. not (m == n)) ns

abbrev pub or_none : Option (List ℕ) → List ℕ
or_none none = []
or_none (some ns) = ns

-- `Channels.on`, and what it returns
unfoldable pub on : String → ℕ → Channels → Channels
on topic n c = record c {
  listeners = Dict.put topic (include n (or_none (Dict.get topic c.listeners))) c.listeners;
}

unfoldable pub off : String → ℕ → Channels → Channels
off topic n c = record c {
  listeners = Dict.put topic (exclude n (or_none (Dict.get topic c.listeners))) c.listeners;
}

unfoldable pub on_any : ℕ → Channels → Channels
on_any n c = record c { anyone = include n c.anyone }

unfoldable pub pipe : ℕ → Channels → Channels
pipe t c = record c { transports = include t c.transports }

-- who gets an envelope
pub data Delivery (P : Type 0) : Type 0 where
  heard sent : ℕ → Envelope P → Delivery P

abbrev pub audience_of : Channels → String → List ℕ
audience_of c topic = or_none (Dict.get topic c.listeners) ++ c.anyone

-- code that delivers and may throw: what it has delivered, and the message that it throws or its value
abbrev pub Effect : Type 0 → Type 0 → Type 0
Effect P A = List (Delivery P) × Result String A

module _ {P : Type 0} where
  abbrev pub after : {A : Type 0} → List (Delivery P) → Effect P A → Effect P A
  after before (more, r) = (before ++ more, r)

  infixl 5 ◌>>=◌
  abbrev pub ◌>>=◌ : {A B : Type 0} → Effect P A → (A → Effect P B) → Effect P B
  (before, err message) >>= f = (before, err message)
  (before, ok a) >>= f = after before (f a)

  -- `try { … } catch (ex) { … }`
  abbrev pub catch : {A : Type 0} → Effect P A → (String → Effect P A) → Effect P A
  catch (before, err message) f = after before (f message)
  catch (before, ok a) f = (before, ok a)

  abbrev pub done : {A : Type 0} → A → Effect P A
  done a = ([], ok a)

  -- an envelope without a step gets that of the channels
  abbrev pub stamped : ℕ → Envelope P → Envelope P
  stamped step e = record e { step = some (elim e.step [ none ↦ step | some own ↦ own ]) }

module _ {P : Type 0} (hear : ℕ → Envelope P → Result String (Unit {0}))
    (send : ℕ → Envelope P → Result String Bool) (failed : String → String → P) where
  -- `listener(envelope)` and `transport.send(envelope)`
  abbrev pub call_listener : Envelope P → ℕ → Effect P (Unit {0})
  call_listener e n = (heard n e ∷ [], hear n e)

  abbrev pub call_transport : Envelope P → ℕ → Effect P Bool
  call_transport e t = (sent t e ∷ [], send t e)

  -- the loop over the listeners, with the messages of those that have thrown
  unfoldable pub call_listeners : Envelope P → List ℕ → List String → Effect P (List String)
  call_listeners e [] broken = done broken
  call_listeners e (n ∷ ns) broken =
      catch (call_listener e n >>= λ _. done broken) (λ message. done (broken ++ message ∷ []))
      >>= call_listeners e ns

  -- the loop over the transports: one that throws or declines is taken out
  unfoldable pub call_transports : Envelope P → List ℕ → List ℕ → Effect P (List ℕ)
  call_transports e [] left = done left
  call_transports e (t ∷ ts) left =
      catch (call_transport e t >>= λ kept. done (if kept then left else exclude t left))
        (λ _. done (exclude t left))
      >>= call_transports e ts

  -- the two loops of `emit`
  unfoldable pub deliver : Envelope P → Channels → Effect P (List String × Channels)
  deliver e c = call_listeners e (audience_of c e.topic) [] >>= λ broken.
      call_transports e c.transports c.transports >>= λ left.
      done (broken, record c { transports = left })

  abbrev pub note_of : String → String → Envelope P
  note_of topic message = record {
    topic = note_topic;
    to = model ∷ [];
    step = none;
    payload = failed topic message;
  }

  -- a note is emitted for each message, and a note has no notes
  unfoldable pub emit_notes : String → List String → Channels → Effect P Channels
  emit_notes topic [] c = done c
  emit_notes topic (message ∷ rest) c =
      deliver (stamped c.step (note_of topic message)) c >>= λ out. emit_notes topic rest out.1

  unfoldable pub emit : Envelope P → Channels → Effect P Channels
  emit e c =
      let envelope = stamped c.step e in
      deliver envelope c >>= λ out.
      if envelope.topic === note_topic then done out.1 else emit_notes envelope.topic out.0 out.1
