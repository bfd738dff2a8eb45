-- ===== src/Compile/Scopes/Heads.antt =====
-- A head that is not read by name is none after variables are replaced.
use lisptc.Prelude.{ℕ, ◌≡◌, refl, String, Bool, true, false, List, ◌==◌, if◌then◌else◌, arith}
use lisptc.Value as V
use lisptc.Value.{Value, null, cell, arg}
use lisptc.Compile.{Table, is_sym, is_unquote}
use lisptc.Compile.Scopes.{search, replace, replace_qq}
use lisptc.Compile.Scopes.Names.{search-is_sym}

pub cells-is_sym :
    (k : String) (a b : Bool) (h1 r1 h2 r2 h3 r3 : Value)
    → is_sym k (if a then cell h1 r1 else if b then cell h2 r2 else cell h3 r3) ≡ false
cells-is_sym k true b h1 r1 h2 r2 h3 r3 = refl
cells-is_sym k false true h1 r1 h2 r2 h3 r3 = refl
cells-is_sym k false false h1 r1 h2 r2 h3 r3 = refl

pub replace-is_sym :
    (ts : List Table) (k : String) (x : Value)
    → is_sym k x ≡ false
    → is_sym k (replace (search 0 ts) x) ≡ false
unfolding replace
replace-is_sym ts k (V.sym name) h = search-is_sym 0 ts name k h
replace-is_sym ts k (cell head rest) h =
    cells-is_sym k (is_sym "quote" head) (is_sym "quasiquote" head) _ _ _ _ _ _
replace-is_sym ts k _ h = refl

pub deep-is_sym :
    (k : String) (a b c : Bool) (h1 r1 h2 r2 h3 r3 h4 r4 : Value)
    → is_sym k
        (if a then cell h1 r1 else if b then if c then cell h2 r2 else cell h3 r3 else cell h4 r4)
      ≡ false
deep-is_sym k true b c h1 r1 h2 r2 h3 r3 h4 r4 = refl
deep-is_sym k false true true h1 r1 h2 r2 h3 r3 h4 r4 = refl
deep-is_sym k false true false h1 r1 h2 r2 h3 r3 h4 r4 = refl
deep-is_sym k false false c h1 r1 h2 r2 h3 r3 h4 r4 = refl

pub replace_qq-is_sym :
    (f : String → Value) (k : String) (x : Value) (level : ℕ)
    → is_sym k x ≡ false
    → is_sym k (replace_qq f x level) ≡ false
unfolding replace_qq
replace_qq-is_sym f k (cell head rest) level h =
    deep-is_sym k (is_sym "quasiquote" head) (is_unquote head) (level == 0) _ _ _ _ _ _ _ _
replace_qq-is_sym f k (V.sym name) level h = h
replace_qq-is_sym f k _ level h = refl

pub replace_qq-is_unquote :
    (f : String → Value) (x : Value) (level : ℕ)
    → is_unquote x ≡ false
    → is_unquote (replace_qq f x level) ≡ false
replace_qq-is_unquote f x level h =
    let plain : is_sym "unquote" x ≡ false = ground (arith, h) in
    let splicing : is_sym "unquote-splicing" x ≡ false = ground (arith, h) in
    rw
      (
        replace_qq-is_sym f "unquote" x level plain,
        replace_qq-is_sym f "unquote-splicing" x level splicing,
      )
      refl
