-- ===== src/Compile/Scopes/Names.antt =====
-- What one more scope changes for a name.
use lisptc.Prelude.{
  ℕ, suc, ◌≡◌, refl, ap, ◌∙◌, String, false, Option, none, some, List, [], ◌∷◌, ◌===◌,
}
use lisptc.Prelude.Dict
use lisptc.Value as V
use lisptc.Value.{Value, null, cell, arg}
use lisptc.Compile.{Table, is_sym, found_or, scan_for_args}
use lisptc.Compile.Scopes.{here_or, search}

abbrev pub shifted : Value → Value
shifted (arg level offset name) = arg (suc level) offset name
shifted x = x

pub here_or-suc :
    (found : Option ℕ) (level : ℕ) (name : String) (other : Value)
    → here_or found (suc level) name (shifted other) ≡ shifted (here_or found level name other)
here_or-suc none level name other = refl
here_or-suc (some offset) level name other = refl

pub search-suc :
    (level : ℕ) (ts : List Table) (name : String)
    → search (suc level) ts name ≡ shifted (search level ts name)
search-suc level [] name = refl
search-suc level (t ∷ ts) name =
    ap (here_or (Dict.get name t) (suc level) name) (search-suc (suc level) ts name)
    ∙ here_or-suc (Dict.get name t) level name (search (suc level) ts name)

-- what is found for a name is no other name
pub here_or-is_sym :
    (found : Option ℕ) (level : ℕ) (name k : String) (other : Value)
    → is_sym k other ≡ false
    → is_sym k (here_or found level name other) ≡ false
here_or-is_sym none level name k other h = h
here_or-is_sym (some offset) level name k other h = refl

pub search-is_sym :
    (level : ℕ) (ts : List Table) (name k : String)
    → (name === k) ≡ false
    → is_sym k (search level ts name) ≡ false
search-is_sym level [] name k h = h
search-is_sym level (t ∷ ts) name k h =
    here_or-is_sym (Dict.get name t) level name k _ (search-is_sym (suc level) ts name k h)

pub found_or-here :
    (found : Option ℕ) (name : String)
    → found_or found name (V.sym name) ≡ here_or found 0 name (V.sym name)
found_or-here none name = refl
found_or-here (some offset) name = refl

pub scan-here_or :
    (t : Table) (found : Option ℕ) (level : ℕ) (name : String) (other next : Value)
    → scan_for_args other t ≡ here_or (Dict.get name t) 0 name next
    → scan_for_args (here_or found level name other) t
      ≡ here_or (Dict.get name t) 0 name (here_or found (suc level) name next)
unfolding scan_for_args
scan-here_or t none level name other next e = e
scan-here_or t (some offset) level name other next e = go (Dict.get name t)
  where
    go :
        (found : Option ℕ)
        → found_or found name (arg (suc level) offset name)
          ≡ here_or found 0 name (arg (suc level) offset name)
    go none = refl
    go (some o) = refl

pub scan-search :
    (t : Table) (ts : List Table) (level : ℕ) (name : String)
    → scan_for_args (search level ts name) t
      ≡ here_or (Dict.get name t) 0 name (search (suc level) ts name)
unfolding scan_for_args
scan-search t [] level name = found_or-here (Dict.get name t) name
scan-search t (s ∷ ts) level name =
    scan-here_or t (Dict.get name s) level name (search (suc level) ts name)
      (search (suc (suc level)) ts name) (scan-search t ts (suc level) name)
