-- ===== src/PanelLayout.antt =====
-- packages/shared/src/panel-layout.ts: the operations that a program asks for on its panels.
-- The kind of a tab's content is a parameter.
use lisptc.Prelude.{
  String, Bool, false, not, Option, none, some, List, [], ◌∷◌, find, ◌===◌, ◌&&◌, if◌then◌else◌,
}
use lisptc.SplitLayout.{Tab, Pane, SplitLayout, all_tabs, pane_of}
use lisptc.SplitLayout.Placing.{Placement, at_focus, to_right, to_down, focus_tab, open_tab}
use lisptc.SplitLayout.Moving.{close_tab}

pub data SplitKind : Type 0 where
  here right_of below : SplitKind

pub data PanelOp {ℓ} (C : Type ℓ) : Type ℓ where
  opens : String → SplitKind → C → PanelOp C
  closes focuses : String → PanelOp C

abbrev pub is_id : String → Option String → Bool
is_id id none = false
is_id id (some other) = id === other

module _ {ℓ} {C : Type ℓ} where
  abbrev pub shows : Option String → Tab C → Option (Pane C) → Bool
  shows focused tab none = false
  shows focused tab (some p) = is_id p.id focused && is_id tab.id p.active

  unfoldable pub focused_tab : SplitLayout C → Option (Tab C)
  focused_tab layout =
      find (λ tab. shows layout.focused tab (pane_of layout tab.id)) (all_tabs layout)

  module _ (kind : C → String) where
    abbrev pub is_chat : Option (Tab C) → Bool
    is_chat none = false
    is_chat (some tab) = kind tab.content === "chat"

    unfoldable pub placed : SplitLayout C → SplitKind → C → Placement
    placed layout right_of content = to_right
    placed layout below content = to_down
    placed layout here content =
        if not (kind content === "chat") && is_chat (focused_tab layout) then to_right else at_focus

    unfoldable pub apply_one : SplitLayout C → PanelOp C → SplitLayout C
    apply_one layout (closes tab) = close_tab layout tab
    apply_one layout (focuses tab) = focus_tab layout tab
    apply_one layout (opens tab where_to content) =
        open_tab layout (record { id = tab; content = content; fixed = false })
          (placed layout where_to content)

    unfoldable pub apply_panel_ops : SplitLayout C → List (PanelOp C) → SplitLayout C
    apply_panel_ops layout [] = layout
    apply_panel_ops layout (op ∷ ops) = apply_panel_ops (apply_one layout op) ops
