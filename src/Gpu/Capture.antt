-- ===== src/Gpu/Capture.antt =====
-- engine/gpu/src/capture.rs: the validation of a capture request.
use b_browser.Prelude.{Result, Str, chars, err, if◌then◌else◌, nat_same, ok, ℕ, ◌||◌}

pub data CaptureTarget : Type 0 where
  screen : CaptureTarget
  window : (id : ℕ) → CaptureTarget
  region : (x y w h : ℕ) → CaptureTarget
  element : (dom_node_id : ℕ) → CaptureTarget

pub data ConditionalFocus : Type 0 where
  focus_captured_surface no_focus_change : ConditionalFocus

pub record CaptureRequest : Type 0 where
  pub origin : Str
  pub target : CaptureTarget
  pub focus : ConditionalFocus

abbrev pub validate_target : CaptureTarget → Result (Unit {0}) Str
validate_target (region x y w h) =
    if nat_same w 0 || nat_same h 0
    then err (chars "region capture requires non-zero dimensions")
    else ok tt
validate_target screen = ok tt
validate_target (window id) = ok tt
validate_target (element dom_node_id) = ok tt

unfoldable pub validate : CaptureRequest → Result (Unit {0}) Str
validate req = validate_target req.target
