-- ===== src/Pages/Shell/Tools.antt =====
-- The place of the tools on the screen, in frontend/components/demo-shell.tsx: `openTools`,
-- `clampToolPosition` and `beginDrag`. Places are whole pixels; the pointer may leave the window, where
-- its places are below 0.
pub mod Dragging
use cvranking.Prelude.{
  ℕ, suc, ◌+◌, ◌-◌, ◌*◌, ◌/◌, ◌^◌, min, Bool, true, false, ◌||◌, Option, none, some, List, [], ◌∷◌,
  ltb, coalesce, if◌then◌else◌,
}
use cvranking.Js.Number.{scale, round_units, half_up}

pub record Point : Type 0 where
  pub x : ℕ
  pub y : ℕ

-- A whole number, as the library's: `negsuc n` is - n - 1.
pub data ℤ : Type 0 where
  pos negsuc : ℕ → ℤ

-- Where the pointer is.
pub record Pointer : Type 0 where
  pub x : ℤ
  pub y : ℤ

pub record Size : Type 0 where
  pub width : ℕ
  pub height : ℕ

pub record ToolPanel : Type 0 where
  pub position : Point
  pub tools_open : Bool
  pub dragging : Bool
  pub drag_moved : Bool
  pub suppress_click : Bool

-- What the listeners of a drag keep: where the pointer went down, and where the tools were.
pub record Drag : Type 0 where
  pub start : Pointer
  pub origin : Point
  pub was_open : Bool

unfoldable pub max : ℕ → ℕ → ℕ
max a b = if ltb a b then b else a

-- The double 0.58, in units.
abbrev share_58 : ℕ
share_58 = 5224175567749775 * 2 ^ 1021

-- The place when the page has been drawn.
unfoldable pub first_position : (screen : Size) → Point
first_position screen = record {
  x = max 16 (screen.width - 58);
  y = max 88 (half_up (round_units (screen.height * share_58) 1) scale);
}

-- `tall` says that the page has brought tools of its own.
unfoldable pub panel_height : (tall : Bool) → ℕ
panel_height tall = if tall then 640 else 560

-- A coordinate that keeps 12 pixels from both edges, or from the first where the screen is too small.
unfoldable pub clamp_axis : (extent size v : ℕ) → ℕ
clamp_axis extent size v = min (max 12 v) (max 12 (extent - size - 12))

-- The measured size, or the usual one.
unfoldable pub tool_size : (tall was_open : Bool) → Option Size → Size
tool_size tall was_open (some rect) = rect
tool_size tall was_open none = record {
  width = if was_open then 330 else 44;
  height = if was_open then panel_height tall else 42;
}

unfoldable pub clamp_tool_position : (screen size : Size) → Point → Point
clamp_tool_position screen size p = record {
  x = clamp_axis screen.width size.width p.x;
  y = clamp_axis screen.height size.height p.y;
}

-- `openTools`: the click at the end of a drag is passed over.
unfoldable pub open_tools : (screen : Size) → (tall : Bool) → ToolPanel → ToolPanel
open_tools screen tall panel =
    if panel.suppress_click then record panel { suppress_click = false } else record panel {
      position = record {
        x = min panel.position.x (max 12 (screen.width - 354));
        y = min panel.position.y (max 12 (screen.height - panel_height tall));
      };
      tools_open = true;
    }

-- `beginDrag`, where the pointer goes down on what may be dragged.
unfoldable pub begin_drag : Pointer → ToolPanel → Drag × ToolPanel
begin_drag pointer panel = (
  record { start = pointer; origin = panel.position; was_open = panel.tools_open },
  record panel { drag_moved = false; dragging = true },
)

-- `Math.abs(a - b)`.
unfoldable pub apart : ℤ → ℤ → ℕ
apart (pos a) (pos b) = (a - b) + (b - a)
apart (pos a) (negsuc b) = a + suc b
apart (negsuc a) (pos b) = b + suc a
apart (negsuc a) (negsuc b) = (a - b) + (b - a)

-- More than 4 pixels apart.
unfoldable pub is_far : ℤ → ℤ → Bool
is_far a b = ltb 4 (apart a b)

-- `origin + pointer - start`, or 0 where that is below 0.
unfoldable pub moved_by : (origin : ℕ) → (pointer start : ℤ) → ℕ
moved_by origin (pos c) (pos s) = origin + c - s
moved_by origin (pos c) (negsuc s) = origin + c + suc s
moved_by origin (negsuc c) (pos s) = origin - (suc c + s)
moved_by origin (negsuc c) (negsuc s) = origin + s - c

unfoldable pub is_move : (start pointer : Pointer) → Bool
is_move start pointer = is_far pointer.x start.x || is_far pointer.y start.y

-- A movement of the pointer, with the size that the tools are measured at. A sum below 0 is as good as
-- 0, since the edge is at 12.
unfoldable pub move :
    (screen : Size) → (tall : Bool) → Drag → Pointer × Option Size → ToolPanel → ToolPanel
move screen tall drag (pointer, rect) panel = record panel {
  position = clamp_tool_position screen (tool_size tall drag.was_open rect) (record {
    x = moved_by drag.origin.x pointer.x drag.start.x;
    y = moved_by drag.origin.y pointer.y drag.start.y;
  });
  drag_moved = panel.drag_moved || is_move drag.start pointer;
}

unfoldable pub moves :
    (screen : Size) → (tall : Bool) → Drag → List (Pointer × Option Size) → ToolPanel → ToolPanel
moves screen tall drag [] panel = panel
moves screen tall drag (event ∷ events) panel =
    moves screen tall drag events (move screen tall drag event panel)

-- The pointer goes up.
unfoldable pub stop : ToolPanel → ToolPanel
stop panel = record panel {
  suppress_click = panel.suppress_click || panel.drag_moved;
  dragging = false;
}

-- The 250 ms after a drag are over.
unfoldable pub suppress_ends : ToolPanel → ToolPanel
suppress_ends panel = record panel { suppress_click = false }

-- A whole drag.
unfoldable pub drag_tools :
    (screen : Size) → (tall : Bool) → Pointer → List (Pointer × Option Size) → ToolPanel → ToolPanel
drag_tools screen tall pointer events panel =
    let (drag, panel') = begin_drag pointer panel in stop (moves screen tall drag events panel')
