-- ===== src/SplitLayout/Ids.antt =====
-- packages/shared/src/split-layout.ts: `nextId` gives an id that no node has.
use Prim.Native.Char.{code}
use Prim.Native.String.{◌++◌ as ◌<>◌}
use package.text.Mathlib.TextLemmas
use lisptc.Prelude.{
  ℕ, zero, suc, ◌+◌, ◌*◌, ◌-◌, ◌/◌, ◌%◌, ◌≤◌, ◌<◌, ◌≡◌, ◌≢◌, refl, ap, sym, ◌∙◌, String, Bool, true,
  false, not, List, [], ◌∷◌, ◌++◌, map, any, filter, ◌===◌, ===_iff, ltb, length, arith, Bool-cases,
  inl, inr,
}
use lisptc.SplitLayout.{SplitLayout, nodes, node_id, next_id, digit, numeral_on, numeral, free_from}

-- the number that a text of digits stands for, read behind `acc`
read_from : ℕ → String → ℕ
read_from acc String.[] = acc
read_from acc (String.◌∷◌ c s) = read_from (10 * acc + (code c - 48)) s

read_from-append : (acc : ℕ) (s t : String) → read_from acc (s <> t) ≡ read_from (read_from acc s) t
unfolding read_from
read_from-append acc String.[] t = ap (read_from acc) (TextLemmas.nil-append t)
read_from-append acc (String.◌∷◌ c s) t =
    ap (read_from acc) (TextLemmas.cons-append c s t)
    ∙ read_from-append (10 * acc + (code c - 48)) s t

-- by cases, since the digits are
read_from-digit : (acc n : ℕ) → n < 10 → read_from acc (digit n) ≡ 10 * acc + n
unfolding read_from
read_from-digit acc zero h = omega arith
read_from-digit acc (suc zero) h = omega arith
read_from-digit acc (suc (suc zero)) h = omega arith
read_from-digit acc (suc (suc (suc zero))) h = omega arith
read_from-digit acc (suc (suc (suc (suc zero)))) h = omega arith
read_from-digit acc (suc (suc (suc (suc (suc zero))))) h = omega arith
read_from-digit acc (suc (suc (suc (suc (suc (suc zero)))))) h = omega arith
read_from-digit acc (suc (suc (suc (suc (suc (suc (suc zero))))))) h = omega arith
read_from-digit acc (suc (suc (suc (suc (suc (suc (suc (suc zero)))))))) h = omega arith
read_from-digit acc (suc (suc (suc (suc (suc (suc (suc (suc (suc zero))))))))) h = omega arith
read_from-digit acc (suc (suc (suc (suc (suc (suc (suc (suc (suc (suc n)))))))))) h =
    omega (arith, h)

read_from-numeral_on : (fuel n : ℕ) → n < fuel → read_from 0 (numeral_on fuel n) ≡ n
unfolding numeral_on
read_from-numeral_on zero n h = omega (arith, h)
read_from-numeral_on (suc fuel) n h = elim (Bool-cases (ltb n 10)) [
  | inl small ↦
      let below : n < 10 = ground (arith, small) in
      rw small (read_from-digit 0 n below ∙ omega arith)
  | inr large ↦
      let ten : 10 ≤ n = ground (arith, large) in
      let smaller : n / 10 < fuel = omega (arith, h, ten) in
      let last : n % 10 < 10 = omega arith in
      rw large (
        read_from-append 0 (numeral_on fuel (n / 10)) (digit (n % 10))
        ∙ ap (λ acc. read_from acc (digit (n % 10))) (read_from-numeral_on fuel (n / 10) smaller)
        ∙ read_from-digit (n / 10) (n % 10) last
        ∙ omega arith)
]

-- different numbers make different ids
numeral_inj : (prefix : String) (n m : ℕ) → prefix <> numeral n ≡ prefix <> numeral m → n ≡ m
unfolding numeral
numeral_inj prefix n m e =
    sym (read_from-numeral_on (suc n) n (omega arith))
    ∙ ap (read_from 0) (TextLemmas.append_cancel_left prefix (numeral n) (numeral m) e)
    ∙ read_from-numeral_on (suc m) m (omega arith)

abbrev taken : String → List String → Bool
taken id ids = any (λ other. other === id) ids

without : String → List String → List String
without id ids = filter (λ other. not (other === id)) ids

length-without : (id : String) (ids : List String) → length (without id ids) ≤ length ids
unfolding without
length-without id [] = omega arith
length-without id (other ∷ ids) = ground (arith, length-without id ids)

length-without-taken :
    (id : String) (ids : List String) → taken id ids ≡ true → length (without id ids) < length ids
unfolding without
length-without-taken id [] h = ground arith
length-without-taken id (other ∷ ids) h =
    ground (arith, length-without id ids, length-without-taken id ids)

taken-without :
    (id other : String) (ids : List String)
    → id ≢ other
    → taken id (without other ids) ≡ taken id ids
unfolding without
taken-without id other [] h = refl
taken-without id other (first ∷ ids) h =
    ground (arith, taken-without id other ids h, ===_iff first id, ===_iff first other)

free_from-free :
    (fuel : ℕ) (prefix : String) (n : ℕ) (ids rest : List String)
    → ((k : ℕ) → n ≤ k → taken (prefix <> numeral k) ids ≡ taken (prefix <> numeral k) rest)
    → length rest < fuel
    → taken (free_from fuel prefix n ids) ids ≡ false
unfolding free_from
free_from-free zero prefix n ids rest same h = ground arith
free_from-free (suc fuel) prefix n ids rest same h =
    elim (Bool-cases (taken (prefix <> numeral n) ids)) [
      | inr free ↦ rw (free, free) refl
      | inl held ↦
          let shorter =
            length-without-taken (prefix <> numeral n) rest (sym (same n (omega arith)) ∙ held) in
          let later =
            free_from-free fuel prefix (suc n) ids (without (prefix <> numeral n) rest)
              (λ k above.
                same k (omega (arith, above))
                ∙ sym (taken-without _ _ rest (λ e. apart k above (numeral_inj prefix k n e))))
              (omega (arith, shorter, h)) in
          rw held later
    ]
  where
    apart : (k : ℕ) → suc n ≤ k → k ≢ n
    apart k above e = omega (arith, above, e)

-- The id that nextId gives, for a prefix and further ids to avoid, is no node's and none of those.
next_id-free {ℓ} :
    {T : Type ℓ} (layout : SplitLayout T) (prefix : String) (also : List String)
    → taken (next_id layout prefix also) (map node_id (nodes layout.root) ++ also) ≡ false
unfolding next_id
next_id-free layout prefix also =
    let held = map node_id (nodes layout.root) ++ also in
    free_from-free (suc (length held)) prefix 1 held held (λ k _. refl) (omega arith)
