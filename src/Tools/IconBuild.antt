-- ===== src/Tools/IconBuild.antt =====
-- The pixels of the icon, and what a failed step leaves.
use b_browser.Prelude.{
  Bool-cases, List, Option-cases, Result-cases, [], ap, arith, inl, inr, length, ok, refl, some,
  suc, true, zero, ℕ, ◌%◌, ◌*◌, ◌-◌, ◌<◌, ◌^◌, ◌∙◌, ◌∷◌, ◌≡◌, ◌⊎◌,
}
use native.Mathlib.Nat.{mod-eq_of_lt}
use b_browser.Tools.Icon.{
  ColorType, rgba, rgb, grayscale_alpha, grayscale, indexed, fill, from_rgb, from_grayscale_alpha,
  from_grayscale, to_rgba8, Frame, Crates, Files, regenerate_ico, opened_icon, read_icon,
  decoded_icon, drawn_icon, encoded_icon, write_warning,
}

abbrev pub channels : ColorType → ℕ
channels rgba = 4
channels rgb = 3
channels grayscale_alpha = 2
channels grayscale = 1
channels indexed = 1

length-fill : (n : ℕ) → length (fill n) ≡ n
length-fill zero = refl
length-fill (suc n) = ap suc (length-fill n)

length-from_rgb : (bytes : List ℕ) (n : ℕ) → length bytes ≡ n * 3 → length (from_rgb bytes) ≡ n * 4
length-from_rgb [] n h = omega (arith, h)
length-from_rgb (r ∷ []) n h = absurd (omega (arith, h))
length-from_rgb (r ∷ g ∷ []) n h = absurd (omega (arith, h))
length-from_rgb (r ∷ g ∷ b ∷ rest) n h =
    omega (arith, h, length-from_rgb rest (n - 1) (omega (arith, h)))

length-from_grayscale_alpha :
    (bytes : List ℕ) (n : ℕ) → length bytes ≡ n * 2 → length (from_grayscale_alpha bytes) ≡ n * 4
length-from_grayscale_alpha [] n h = omega (arith, h)
length-from_grayscale_alpha (g ∷ []) n h = absurd (omega (arith, h))
length-from_grayscale_alpha (g ∷ a ∷ rest) n h =
    omega (arith, h, length-from_grayscale_alpha rest (n - 1) (omega (arith, h)))

length-from_grayscale : (bytes : List ℕ) → length (from_grayscale bytes) ≡ length bytes * 4
length-from_grayscale [] = refl
length-from_grayscale (g ∷ rest) = omega (arith, length-from_grayscale rest)

-- An image with as many bytes as its size and its color type ask for becomes one of four bytes for
-- each pixel, where the number of pixels fits in 32 bits.
pub length-to_rgba8 :
    (bytes : List ℕ) (width height : ℕ) (color : ColorType)
    → width * height < 2 ^ 32
    → length bytes ≡ width * height * channels color
    → length (to_rgba8 bytes width height color) ≡ width * height * 4
unfolding to_rgba8
length-to_rgba8 bytes width height rgba fits h = h
length-to_rgba8 bytes width height rgb fits h = length-from_rgb bytes (width * height) h
length-to_rgba8 bytes width height grayscale_alpha fits h =
    length-from_grayscale_alpha bytes (width * height) h
length-to_rgba8 bytes width height grayscale fits h = omega (arith, h, length-from_grayscale bytes)
length-to_rgba8 bytes width height indexed fits h =
    length-fill ((width * height) % 2 ^ 32 * 4)
    ∙ ap (λ n. n * 4) (ground (arith, mod-eq_of_lt fits))

module _ {Reader Image Entry : Type 0} (crates : Crates Reader Image Entry) where
  -- Every step succeeds, up to the creation of the file.
  pub record Succeeds (files : Files) : Type 0 where
    pub png : List ℕ
    pub reader : Reader
    pub frame : Frame
    pub image : Image
    pub entry : Entry
    pub opened : files.icon_png ≡ some png
    pub read : crates.read_info png ≡ ok reader
    pub decoded : crates.next_frame reader ≡ ok frame
    pub drawn :
        crates.from_rgba_data frame.width frame.height
          (to_rgba8 frame.buffer frame.width frame.height frame.color_type)
        ≡ some image
    pub encoded : crates.encode image ≡ ok entry
    pub created : files.can_create ≡ true

  made :
      (files : Files) (s : Succeeds files)
      → regenerate_ico crates files ≡ (
        some (write_warning (crates.write s.entry).1),
        record files { icon_ico = some (crates.write s.entry).0 },
      )
  unfolding regenerate_ico
  made files s =
      ap (opened_icon crates files) s.opened
      ∙ ap (read_icon crates files) s.read
      ∙ ap (decoded_icon crates files) s.decoded
      ∙ ap (drawn_icon crates files) s.drawn
      ∙ ap (encoded_icon crates files) s.encoded
      ∙ ground (arith, s.created)

  -- From the frame on.
  abbrev pixels : Frame → List ℕ
  pixels frame = to_rgba8 frame.buffer frame.width frame.height frame.color_type

  drawn_or_kept :
      (files : Files) (frame : Frame)
      → ((image : Image) × (entry : Entry) × (crates.from_rgba_data frame.width frame.height
              (pixels frame)
            ≡ some image)
          × (crates.encode image ≡ ok entry)
          × (files.can_create ≡ true))
        ⊎ ((decoded_icon crates files (ok frame)).1 ≡ files)
  drawn_or_kept files frame =
      elim (Option-cases (crates.from_rgba_data frame.width frame.height (pixels frame))) [
        | inl panics ↦ inr (ap (λ o. (drawn_icon crates files o).1) panics)
        | inr (image, i) ↦
            let drawn = ap (λ o. (drawn_icon crates files o).1) i in
            elim (Result-cases (crates.encode image)) [
              | inr (x, c) ↦ inr (drawn ∙ ap (λ o. (encoded_icon crates files o).1) c)
              | inl (entry, c) ↦ elim (Bool-cases files.can_create) [
                | inl created ↦ inl (image, entry, i, c, created)
                | inr no_file ↦
                    inr (
                      drawn ∙ ap (λ o. (encoded_icon crates files o).1) c ∙ ground (arith, no_file))
              ]
            ]
      ]

  -- Every step succeeds, or the files are as they were.
  Succeeds-or_kept : (files : Files) → Succeeds files ⊎ ((regenerate_ico crates files).1 ≡ files)
  unfolding regenerate_ico
  Succeeds-or_kept files = elim (Option-cases files.icon_png) [
    | inl e ↦ inr (ap (λ o. (opened_icon crates files o).1) e)
    | inr (png, e) ↦
        let opened = ap (λ o. (opened_icon crates files o).1) e in
        elim (Result-cases (crates.read_info png)) [
          | inr (x, r) ↦ inr (opened ∙ ap (λ o. (read_icon crates files o).1) r)
          | inl (reader, r) ↦
              let read = opened ∙ ap (λ o. (read_icon crates files o).1) r in
              elim (Result-cases (crates.next_frame reader)) [
                | inr (x, d) ↦ inr (read ∙ ap (λ o. (decoded_icon crates files o).1) d)
                | inl (frame, d) ↦ elim (drawn_or_kept files frame) [
                  | inr same ↦ inr (read ∙ ap (λ o. (decoded_icon crates files o).1) d ∙ same)
                  | inl (image, entry, i, c, created) ↦ inl (record {
                    png = png;
                    reader = reader;
                    frame = frame;
                    image = image;
                    entry = entry;
                    opened = e;
                    read = r;
                    decoded = d;
                    drawn = i;
                    encoded = c;
                    created = created;
                  })
                ]
              ]
        ]
  ]

  -- The icon is replaced by what the crate writes, with the warning of that, when every step up to
  -- the creation of the file succeeds. When one of them does not, by an error or by a panic on the
  -- pixels, both files are as they were.
  pub regenerate_ico-keeps :
      (files : Files)
      → ((s : Succeeds files)
          → regenerate_ico crates files ≡ (
            some (write_warning (crates.write s.entry).1),
            record files { icon_ico = some (crates.write s.entry).0 },
          ))
        × (¬ Succeeds files → (regenerate_ico crates files).1 ≡ files)
  regenerate_ico-keeps files = (
    made files,
    λ fails. elim (Succeeds-or_kept files) [ inl s ↦ absurd (fails s) | inr same ↦ same ],
  )
