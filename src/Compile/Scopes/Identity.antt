-- ===== src/Compile/Scopes/Identity.antt =====
-- Without scopes nothing is replaced.
use lisptc.Prelude.{ℕ, suc, ◌-◌, ◌≡◌, refl, Bool, true, false, ◌==◌, if◌then◌else◌}
use lisptc.Value as V
use lisptc.Value.{Value, null, cell, arg}
use lisptc.Compile.{is_sym, is_unquote}
use lisptc.Compile.Scopes.{replace, replace_items, replace_qq}

pub same3 : (a b : Bool) (x : Value) → (if a then x else if b then x else x) ≡ x
same3 true b x = refl
same3 false true x = refl
same3 false false x = refl

pub same4 : (a b c : Bool) (x : Value) → (if a then x else if b then if c then x else x else x) ≡ x
same4 true b c x = refl
same4 false true true x = refl
same4 false true false x = refl
same4 false false c x = refl

mutual
  unfolding replace

  pub replace-sym : (x : Value) → replace V.sym x ≡ x
  replace-sym (cell head rest) =
      rw (replace_qq-sym rest 0, replace-sym head, replace_items-sym rest)
        (same3 (is_sym "quote" head) (is_sym "quasiquote" head) (cell head rest))
  replace-sym _ = refl

  pub replace_items-sym : (x : Value) → replace_items V.sym x ≡ x
  replace_items-sym (cell head rest) = rw (replace-sym head, replace_items-sym rest) refl
  replace_items-sym _ = refl

  pub replace_qq-sym : (x : Value) (level : ℕ) → replace_qq V.sym x level ≡ x
  replace_qq-sym (cell head rest) level =
      rw
        (
          replace_qq-sym rest (suc level),
          replace-sym rest,
          replace_qq-sym rest (level - 1),
          replace_qq-sym head level,
          replace_qq-sym rest level,
        )
        (same4 (is_sym "quasiquote" head) (is_unquote head) (level == 0) (cell head rest))
  replace_qq-sym _ level = refl
