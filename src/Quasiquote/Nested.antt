-- ===== src/Quasiquote/Nested.antt =====
-- Templates inside templates: where the expansion counts a quasiquote twice, and where once.
use lisptc.Prelude.{String, ◌≡◌, refl, some}
use lisptc.Value.{Value, null, text, sym, cell}
use lisptc.Quasiquote.{list2, qq_expand}

abbrev pub unquoted : Value → Value
unquoted e = list2 (sym "unquote") e

-- the template `(s ,e)` under its own quasiquote
abbrev pub inner : String → Value → Value
inner s e = list2 (sym "quasiquote") (list2 (text s) (unquoted e))

abbrev list_form : Value → Value
list_form args = cell (sym "list") args

abbrev quote_form : Value → Value
quote_form x = list2 (sym "quote") x

-- A template (s ,e) under two quasiquotes has its hole evaluated at once if the inner quasiquote
-- is the whole template, while the same template as an item of a list keeps the hole, here a text,
-- as data.
qq_expand-inner :
    (s u t : String) (e : Value)
    → (qq_expand (inner s e)
        ≡ some (list_form (list2 (quote_form (sym "quasiquote")) (list_form (list2 (text s) e)))))
      × (qq_expand (cell (text u) (cell (inner s (text t)) null))
          ≡ some (
              list_form (
                list2 (text u) (
                  list_form (
                    list2 (quote_form (sym "quasiquote")) (
                      list_form (
                        list2
                          (text s)
                          (list_form (list2 (quote_form (sym "unquote")) (text t))))))))))
unfolding qq_expand
qq_expand-inner s u t e = (refl, refl)
