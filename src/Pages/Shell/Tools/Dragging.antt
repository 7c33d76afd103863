-- ===== src/Pages/Shell/Tools/Dragging.antt =====
-- A drag and the click at its end.
use mathlib.Core.Path.{ap₂}
use cvranking.Prelude.{
  ℕ, suc, ◌+◌, ◌-◌, ◌≤◌, ◌≡◌, refl, ap, ◌∙◌, min, Bool, true, false, not, Bool-cases, inl, inr,
  ◌||◌, Option, List, [], ◌∷◌, ltb, arith,
}
use cvranking.Pages.Shell.Tools.{
  ℤ, pos, negsuc, Pointer, apart, is_far, Size, ToolPanel, Drag, max, clamp_axis, open_tools,
  begin_drag, is_move, move, moves, stop, drag_tools,
}

-- One place is more than 4 pixels behind another.
abbrev pub ahead_by_4 : ℤ → ℤ → Bool
ahead_by_4 (pos a) (pos b) = ltb (b + 4) a
ahead_by_4 (pos a) (negsuc b) = ltb 4 (a + suc b)
ahead_by_4 (negsuc a) (pos b) = false
ahead_by_4 (negsuc a) (negsuc b) = ltb (a + 4) b

-- The pointer is more than 4 pixels to the right, to the left, below or above of where it went down.
abbrev pub is_away : (start pointer : Pointer) → Bool
is_away start pointer =
    (ahead_by_4 pointer.x start.x || ahead_by_4 start.x pointer.x)
    || (ahead_by_4 pointer.y start.y || ahead_by_4 start.y pointer.y)

abbrev pub any_away : Pointer → List (Pointer × Option Size) → Bool
any_away start [] = false
any_away start (event ∷ events) = is_away start event.0 || any_away start events

is_far-ahead_by_4 : (a b : ℤ) → is_far a b ≡ (ahead_by_4 a b || ahead_by_4 b a)
unfolding is_far apart
is_far-ahead_by_4 (pos a) (pos b) = ground arith
is_far-ahead_by_4 (pos a) (negsuc b) = ground arith
is_far-ahead_by_4 (negsuc a) (pos b) = ground arith
is_far-ahead_by_4 (negsuc a) (negsuc b) = ground arith

is_move-is_away : (start pointer : Pointer) → is_move start pointer ≡ is_away start pointer
unfolding is_move
is_move-is_away start pointer =
    ap₂ ◌||◌ (is_far-ahead_by_4 pointer.x start.x) (is_far-ahead_by_4 pointer.y start.y)

or_assoc : (a b c : Bool) → ((a || b) || c) ≡ (a || (b || c))
or_assoc true b c = refl
or_assoc false b c = refl

or_false : (a : Bool) → (a || false) ≡ a
or_false true = refl
or_false false = refl

module _ (screen : Size) (tall : Bool) where
  drag_moved-moves :
      (drag : Drag) (events : List (Pointer × Option Size)) (panel : ToolPanel)
      → (moves screen tall drag events panel).drag_moved
        ≡ (panel.drag_moved || any_away drag.start events)
  unfolding moves move
  drag_moved-moves drag [] panel = cvranking.Prelude.sym (or_false panel.drag_moved)
  drag_moved-moves drag (event ∷ events) panel =
      drag_moved-moves drag events (move screen tall drag event panel)
      ∙ or_assoc panel.drag_moved (is_move drag.start event.0) (any_away drag.start events)
      ∙ ap (λ b. panel.drag_moved || (b || any_away drag.start events))
          (is_move-is_away drag.start event.0)

  tools_open-moves :
      (drag : Drag) (events : List (Pointer × Option Size)) (panel : ToolPanel)
      → (moves screen tall drag events panel).tools_open ≡ panel.tools_open
  unfolding moves move
  tools_open-moves drag [] panel = refl
  tools_open-moves drag (event ∷ events) panel =
      tools_open-moves drag events (move screen tall drag event panel)

  suppress_click-moves :
      (drag : Drag) (events : List (Pointer × Option Size)) (panel : ToolPanel)
      → (moves screen tall drag events panel).suppress_click ≡ panel.suppress_click
  unfolding moves move
  suppress_click-moves drag [] panel = refl
  suppress_click-moves drag (event ∷ events) panel =
      suppress_click-moves drag events (move screen tall drag event panel)

  tools_open-open_tools :
      (panel : ToolPanel)
      → panel.tools_open ≡ false
      → (open_tools screen tall panel).tools_open ≡ not panel.suppress_click
  unfolding open_tools
  tools_open-open_tools panel shut = elim (Bool-cases panel.suppress_click) [
    | inl e ↦ rw e shut
    | inr e ↦ rw e refl
  ]

  -- When the tools are shut and no click is to be passed over, a click right after a drag opens them if
  -- and only if the pointer never was more than 4 pixels to the right or left of, or below or above, where
  -- it went down.
  pub open_tools-drag_tools :
      (pointer : Pointer) (events : List (Pointer × Option Size)) (panel : ToolPanel)
      → panel.tools_open ≡ false
      → panel.suppress_click ≡ false
      → (open_tools screen tall (drag_tools screen tall pointer events panel)).tools_open
        ≡ not (any_away pointer events)
  unfolding drag_tools stop begin_drag
  open_tools-drag_tools pointer events panel shut clear =
      let drag = (begin_drag pointer panel).0 in
      let panel' = (begin_drag pointer panel).1 in
      let far = drag_moved-moves drag events panel' in
      let quiet = suppress_click-moves drag events panel' ∙ clear in
      let closed = tools_open-moves drag events panel' ∙ shut in
      tools_open-open_tools (stop (moves screen tall drag events panel')) closed
      ∙ ap not (rw (quiet, far) refl)

  -- A coordinate at least 12 pixels from the first edge, and from the second where the tools fit.
  clamp_axis-bounds :
      (extent size v : ℕ)
      → (12 ≤ clamp_axis extent size v)
        × (24 + size ≤ extent → clamp_axis extent size v + size + 12 ≤ extent)
  unfolding clamp_axis max
  clamp_axis-bounds extent size v = (ground arith, λ h. ground arith)
