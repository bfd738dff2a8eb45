-- ===== src/Channels/Sending.antt =====
-- An envelope reaches its listeners whatever they throw, and what comes after it are notes on those.
use lisptc.Prelude.{
  ℕ, String, Bool, true, List, [], ◌∷◌, ◌++◌, map, All, All-append, ◌≡◌, refl, sym, ap, ◌∙◌, ◌===◌,
  Bool-cases, inl, inr,
}
use lisptc.Prelude.Dict
use lisptc.Prelude.Result.{Result, ok}
use lisptc.Channels.{
  Envelope, Channels, note_topic, Delivery, heard, sent, stamped, audience_of, or_none, includes,
  after, ◌>>=◌, note_of, emit_notes, emit,
}
use lisptc.Channels.Delivering.{
  receivers, apart, thrown, kept, kept-includes, kept-accepted, deliver-receivers,
}

abbrev pub IsNote : {P : Type 0} → Delivery P → Type 0
IsNote (heard n e) = e.topic ≡ note_topic
IsNote (sent t e) = e.topic ≡ note_topic

All-map :
    {A B : Type 0} (P : B → Type 0) (f : A → B) (xs : List A)
    → ((x : A) → P (f x))
    → All P (map f xs)
All-map P f [] h = tt
All-map P f (x ∷ xs) h = (h x, All-map P f xs h)

module _ {P : Type 0} (hear : ℕ → Envelope P → Result String (Unit {0}))
    (send : ℕ → Envelope P → Result String Bool) (failed : String → String → P) where
  receivers-IsNote :
      (e : Envelope P) (c : Channels) → e.topic ≡ note_topic → All IsNote (receivers c e)
  receivers-IsNote e c h =
      let own = map (λ n. heard n e) (or_none (Dict.get e.topic c.listeners)) in
      All-append IsNote (own ++ map (λ n. heard n e) c.anyone) (map (λ t. sent t e) c.transports)
        (All-append IsNote own (map (λ n. heard n e) c.anyone)
          (All-map IsNote (λ n. heard n e) (or_none (Dict.get e.topic c.listeners)) (λ n. h))
          (All-map IsNote (λ n. heard n e) c.anyone (λ n. h)))
        (All-map IsNote (λ t. sent t e) c.transports (λ t. h))

  emit_notes-IsNote :
      (topic : String) (messages : List String) (c : Channels)
      → (notes : List (Delivery P)) × (next : Channels) × (emit_notes hear send failed topic
            messages c
          ≡ (notes, ok next))
        × All IsNote notes
        × ((t : ℕ) → includes t next.transports ≡ true → includes t c.transports ≡ true)
        × (messages ≡ [] → notes ≡ [])
  unfolding emit_notes
  emit_notes-IsNote topic [] c = ([], c, refl, tt, λ t h. h, λ h. refl)
  emit_notes-IsNote topic (message ∷ rest) c =
      let e = stamped c.step (note_of hear send failed topic message) in
      let left : Channels = record c {
        transports = kept hear send failed e c.transports c.transports;
      } in
      let (notes, next, same, are_notes, fewer, none_if) = emit_notes-IsNote topic rest left in
      (
        receivers c e ++ notes,
        next,
        ap (λ o. o >>= λ out. emit_notes hear send failed topic rest out.1)
              (deliver-receivers hear send failed e c)
            ∙ ap (after (receivers c e)) same,
        All-append IsNote (receivers c e) notes (receivers-IsNote e c refl) are_notes,
        λ t h. kept-includes hear send failed e t c.transports c.transports (fewer t h),
        λ h. absurd cc,
      )

  thrown-nothing :
      (e : Envelope P) (ns : List ℕ) (before : List String)
      → All (λ n. hear n e ≡ ok tt) ns
      → thrown hear send failed e ns before ≡ before
  unfolding thrown
  thrown-nothing e [] before h = refl
  thrown-nothing e (n ∷ ns) before (quiet, h) = rw quiet (thrown-nothing e ns before h)

  -- Whatever listeners and transports throw, emitting an envelope ends, and delivers it first to each listener
  -- of its topic, to each of any topic and to each transport, in this order. All that is delivered after it is
  -- notes: none after a note, and none where no listener throws. A transport that was there and still is has
  -- accepted the envelope.
  pub emit_lem :
      (e : Envelope P) (c : Channels)
      → (notes : List (Delivery P)) × (next : Channels) × (emit hear send failed e c
          ≡ (receivers c (stamped c.step e) ++ notes, ok next))
        × All IsNote notes
        × ((e.topic === note_topic) ≡ true → notes ≡ [])
        × (All
              (λ n. hear n (stamped c.step e) ≡ ok tt)
              (or_none (Dict.get e.topic c.listeners) ++ c.anyone)
            → notes ≡ [])
        × ((t : ℕ) → includes t next.transports ≡ true → send t (stamped c.step e) ≡ ok true)
  unfolding emit
  emit_lem e c =
      let envelope = stamped c.step e in
      let left : Channels = record c {
        transports = kept hear send failed envelope c.transports c.transports;
      } in
      let messages = thrown hear send failed envelope (audience_of c e.topic) [] in
      let (notes, next, same, are_notes, fewer, none_if) =
        emit_notes-IsNote e.topic messages left in
      let accepted = λ (t : ℕ) (h : includes t left.transports ≡ true).
        kept-accepted hear send failed envelope t c.transports c.transports
          (kept-includes hear send failed envelope t c.transports c.transports h) h in
      let run = deliver-receivers hear send failed envelope c in
      elim (Bool-cases (e.topic === note_topic)) [
        | inl note ↦ ([], left, rw (run, note) refl, tt, λ h. refl, λ h. refl, accepted)
        | inr other ↦ (
          notes,
          next,
          rw (run, other, same) refl,
          are_notes,
          λ h. absurd (apart (sym h ∙ other)),
          λ quiet. none_if (thrown-nothing envelope (audience_of c e.topic) [] quiet),
          λ t h. accepted t (fewer t h),
        )
      ]
