-- ===== src/Reader/Fuel.antt =====
-- Reading ends by itself.
use lisptc.Prelude.{
  ℕ, zero, suc, ◌*◌, ◌-◌, ◌≤◌, ◌<◌, Bool, true, false, List, [], ◌∷◌, length, arith, String,
}
use lisptc.Prelude.Result.{ok, err, ◌>>=◌}
use lisptc.Value.{Value}
use lisptc.Reader.{
  Token, newline, malformed, handle, token, end_of_file, unreadable, out_of_fuel, syntax, Source,
  Read, next_token, Mark, opens, unexpected, atom, quotes, mark_of, by_mark, choose, is_sym,
  parse_expression, parse_list_body, read,
}

-- Reading succeeds and leaves at most `n` tokens, or fails for a reason that is in the tokens.
abbrev pub EndsWithin : ℕ → Read (Value × Source) → Type 0
EndsWithin n (ok (x, s)) = length s.tokens ≤ n
EndsWithin n (err end_of_file) = Unit
EndsWithin n (err unreadable) = Unit
EndsWithin n (err (syntax line)) = Unit
EndsWithin n (err out_of_fuel) = ⊥

EndsWithin-bind :
    (k n : ℕ) (r : Read (Value × Source)) (f : Value × Source → Read (Value × Source))
    → EndsWithin k r
    → ((x : Value) (s : Source) → length s.tokens ≤ k → EndsWithin n (f (x, s)))
    → EndsWithin n (r >>= f)
EndsWithin-bind k n (ok (x, s)) f h g = g x s h
EndsWithin-bind k n (err end_of_file) f h g = tt
EndsWithin-bind k n (err unreadable) f h g = tt
EndsWithin-bind k n (err (syntax line)) f h g = tt
EndsWithin-bind k n (err out_of_fuel) f h g = elim h [ ]

EndsWithin-more : (k n : ℕ) (r : Read (Value × Source)) → k ≤ n → EndsWithin k r → EndsWithin n r
EndsWithin-more k n (ok (x, s)) less h = omega (arith, less, h)
EndsWithin-more k n (err end_of_file) less h = tt
EndsWithin-more k n (err unreadable) less h = tt
EndsWithin-more k n (err (syntax line)) less h = tt
EndsWithin-more k n (err out_of_fuel) less h = h

-- a token is taken
next-bind :
    (n : ℕ) (tokens : List Token) (line : ℕ) (f : Value × Source → Read (Value × Source))
    → ((x : Value) (s : Source) → length s.tokens < length tokens → EndsWithin n (f (x, s)))
    → EndsWithin n (next_token tokens line >>= f)
unfolding next_token
next-bind n [] line f g = tt
next-bind n (newline ∷ tokens) line f g =
    next-bind n tokens (suc line) f (λ x s less. g x s (omega (arith, less)))
next-bind n (malformed ∷ tokens) line f g = tt
next-bind n (handle ∷ tokens) line f g = tt
next-bind n (token x ∷ tokens) line f g = g x _ (omega arith)

choose-Ends :
    (n : ℕ) (b : Bool) (f g : Unit {0} → Read (Value × Source))
    → EndsWithin n (f tt)
    → EndsWithin n (g tt)
    → EndsWithin n (choose b f g)
choose-Ends n true f g h k = h
choose-Ends n false f g h k = k

by_mark-Ends :
    (n : ℕ) (mark : Mark) (f : Unit {0} → Read (Value × Source))
    (g : String → Read (Value × Source)) (h k : Unit {0} → Read (Value × Source))
    → EndsWithin n (f tt)
    → ((name : String) → EndsWithin n (g name))
    → EndsWithin n (h tt)
    → EndsWithin n (k tt)
    → EndsWithin n (by_mark mark f g h k)
by_mark-Ends n opens f g h k p q r s = p
by_mark-Ends n (quotes name) f g h k p q r s = q name
by_mark-Ends n unexpected f g h k p q r s = r
by_mark-Ends n atom f g h k p q r s = s

mutual
  unfolding parse_expression parse_list_body

  parse_expression-Ends :
      (fuel : ℕ) (t : Value) (s : Source)
      → suc (2 * length s.tokens) ≤ fuel
      → EndsWithin (length s.tokens) (parse_expression fuel t s)
  parse_expression-Ends zero t s enough = ground arith
  parse_expression-Ends (suc fuel) t s enough =
      by_mark-Ends (length s.tokens) (mark_of t) _ _ _ _
        (next-bind (length s.tokens) s.tokens s.line _ (λ x more less.
          EndsWithin-more (length more.tokens) (length s.tokens) _ (omega (arith, less))
            (parse_list_body-Ends fuel x more (omega (arith, less, enough)))))
        (λ name. next-bind (length s.tokens) s.tokens s.line _ (λ x more less.
          EndsWithin-bind (length more.tokens) (length s.tokens) _ _
            (parse_expression-Ends fuel x more (omega (arith, less, enough)))
            (λ y left fewer. omega (arith, less, fewer))))
        tt (omega arith)

  parse_list_body-Ends :
      (fuel : ℕ) (t : Value) (s : Source)
      → suc (suc (2 * length s.tokens)) ≤ fuel
      → EndsWithin (length s.tokens) (parse_list_body fuel t s)
  parse_list_body-Ends zero t s enough = ground arith
  parse_list_body-Ends (suc fuel) t s enough =
      choose-Ends (length s.tokens) (is_sym ")" t) _ _ (omega arith) (
        EndsWithin-bind (length s.tokens) (length s.tokens) _ _
          (parse_expression-Ends fuel t s (omega (arith, enough)))
          (λ x a below_a. next-bind (length s.tokens) a.tokens a.line _ (λ dot b below_b.
            choose-Ends (length s.tokens) (is_sym "." dot) _ _
              (next-bind (length s.tokens) b.tokens b.line _ (λ u c below_c.
                EndsWithin-bind (length c.tokens) (length s.tokens) _ _
                  (parse_expression-Ends fuel u c
                    (omega (arith, enough, below_a, below_b, below_c)))
                  (λ y d below_d. next-bind (length s.tokens) d.tokens d.line _ (λ close e below_e.
                    choose-Ends (length s.tokens) (is_sym ")" close) _ _
                      (omega (arith, below_a, below_b, below_c, below_d, below_e)) tt))))
              (EndsWithin-bind (length b.tokens) (length s.tokens) _ _
                (parse_list_body-Ends fuel dot b (omega (arith, enough, below_a, below_b)))
                (λ y c below_c. omega (arith, below_a, below_b, below_c))))))

-- Reader.read ends by itself on every list of tokens: it gives a value and leaves fewer tokens than
-- there were, or fails for a reason that is in the tokens, and never for want of fuel.
pub read-EndsWithin : (s : Source) → EndsWithin (length s.tokens - 1) (read s)
unfolding read
read-EndsWithin s = next-bind (length s.tokens - 1) s.tokens s.line _ (λ x more less.
    EndsWithin-more (length more.tokens) (length s.tokens - 1) _ (omega (arith, less))
      (parse_expression-Ends (2 * length s.tokens) x more (omega (arith, less))))
