-- ===== src/Tools/Icon.antt =====
-- ui/shell-desktop/src-tauri/build.rs: the icon of the desktop shell, made again on every build. The
-- steps that the crates `png` and `ico` and the file system take are parameters; what a step writes
-- of its error stands for `({e})`.
use b_browser.Prelude.{
  Bool, List, Option, Result, Str, [], chars, err, if◌then◌else◌, none, not, ok, some, suc, zero, ℕ,
  ◌%◌, ◌*◌, ◌++◌, ◌^◌, ◌∷◌,
}

-- `png::ColorType`, of which the `match` names all.
pub data ColorType : Type 0 where
  rgba rgb grayscale_alpha grayscale indexed : ColorType

abbrev pub fill : ℕ → List ℕ
fill zero = []
fill (suc n) = 255 ∷ fill n

-- `chunks_exact(3)`: what does not fill a chunk is left out.
abbrev pub from_rgb : List ℕ → List ℕ
from_rgb (r ∷ g ∷ b ∷ data') = r ∷ g ∷ b ∷ 255 ∷ from_rgb data'
from_rgb _ = []

abbrev pub from_grayscale_alpha : List ℕ → List ℕ
from_grayscale_alpha (g ∷ a ∷ data') = g ∷ g ∷ g ∷ a ∷ from_grayscale_alpha data'
from_grayscale_alpha _ = []

abbrev pub from_grayscale : List ℕ → List ℕ
from_grayscale [] = []
from_grayscale (g ∷ data') = g ∷ g ∷ g ∷ 255 ∷ from_grayscale data'

-- `width * height` is a product of u32, which wraps here as it does in the release profile.
unfoldable pub to_rgba8 : List ℕ → ℕ → ℕ → ColorType → List ℕ
to_rgba8 bytes width height rgba = bytes
to_rgba8 bytes width height rgb = from_rgb bytes
to_rgba8 bytes width height grayscale_alpha = from_grayscale_alpha bytes
to_rgba8 bytes width height grayscale = from_grayscale bytes
to_rgba8 bytes width height indexed = fill ((width * height) % 2 ^ 32 * 4)

-- What `next_frame` returns, with the part of the buffer that it filled.
pub record Frame : Type 0 where
  pub width : ℕ
  pub height : ℕ
  pub color_type : ColorType
  pub buffer : List ℕ

-- The calls of other crates, with `Err` as its text.
pub record Crates (Reader Image Entry : Type 0) : Type 0 where
  pub read_info : List ℕ → Result Reader Str
  pub next_frame : Reader → Result Frame Str
  -- `none` is a panic: the sizes are out of range, or there are not four bytes for each pixel.
  pub from_rgba_data : ℕ → ℕ → List ℕ → Option Image
  pub encode : Image → Result Entry Str
  -- the bytes that reach the file, and the error if there is one
  pub write : Entry → List ℕ × Option Str

-- The two files, `none` where there is none, and whether `icon.ico` can be created.
pub record Files : Type 0 where
  pub icon_png : Option (List ℕ)
  pub icon_ico : Option (List ℕ)
  pub can_create : Bool

abbrev pub write_warning : Option Str → List Str
write_warning none = []
write_warning (some e) = (chars "could not write icon.ico (" ++ (e ++ chars ")")) ∷ []

-- The warnings that were printed, `none` after a panic, and the files.
abbrev pub Outcome : Type 0
Outcome = Option (List Str) × Files

-- A warning, and the files as they were.
abbrev pub kept : Str → Files → Outcome
kept warning files = (some (warning ∷ []), files)

module _ {Reader Image Entry : Type 0} (crates : Crates Reader Image Entry) where
  -- The files after `create` and `write`.
  abbrev pub write_icon : Files → Entry → Outcome
  write_icon files entry = if not files.can_create then (some [], files) else (
    some (write_warning (crates.write entry).1),
    record files { icon_ico = some (crates.write entry).0 },
  )

  -- The `match` on each step's result.
  abbrev pub encoded_icon : Files → Result Entry Str → Outcome
  encoded_icon files (ok entry) = write_icon files entry
  encoded_icon files (err e) =
      kept (chars "could not encode icon entry (" ++ (e ++ chars "); keeping existing icon.ico"))
        files

  abbrev pub drawn_icon : Files → Option Image → Outcome
  drawn_icon files none = (none, files)
  drawn_icon files (some image) = encoded_icon files (crates.encode image)

  abbrev pub decoded_icon : Files → Result Frame Str → Outcome
  decoded_icon files (ok frame) = drawn_icon files (
      crates.from_rgba_data frame.width frame.height
        (to_rgba8 frame.buffer frame.width frame.height frame.color_type))
  decoded_icon files (err e) =
      kept (chars "could not decode icon.png (" ++ (e ++ chars "); keeping existing icon.ico"))
        files

  abbrev pub read_icon : Files → Result Reader Str → Outcome
  read_icon files (ok reader) = decoded_icon files (crates.next_frame reader)
  read_icon files (err e) =
      kept (chars "could not read icon.png (" ++ (e ++ chars "); keeping existing icon.ico")) files

  abbrev pub opened_icon : Files → Option (List ℕ) → Outcome
  opened_icon files none = kept (chars "icons/icon.png not found; using existing icon.ico") files
  opened_icon files (some bytes) = read_icon files (crates.read_info bytes)

  unfoldable pub regenerate_ico : Files → Outcome
  regenerate_ico files = opened_icon files files.icon_png
