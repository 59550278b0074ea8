-- ===== src/Rendering/Seeds.antt =====
-- The canvas noise seeds of different origins.
use mathlib.Core.List.{append_assoc}
use b_browser.Prelude.{
  inr, inl, ltb, Bool-cases, All, All-append, Str, [], ap, arith, refl, sym, ℕ, ◌++◌, ◌<◌, ◌↔◌, ◌∙◌,
  ◌∷◌, ◌≡◌, ◌≢◌,
}
use b_browser.Prelude.Text.{utf8, utf8_char}
use b_browser.Prelude.Fnv.{fnv_offset, fnv_from, fnv_from_differ, AreBytes}
use b_browser.Rendering.Fingerprint.{RandomizationLevel, off, level_eq, canvas_noise_seed}

utf8-append : (s t : Str) → utf8 (s ++ t) ≡ utf8 s ++ utf8 t
unfolding utf8
utf8-append [] t = refl
utf8-append (c ∷ s) t =
    ap (λ l. utf8_char c ++ l) (utf8-append s t)
    ∙ sym (append_assoc (utf8_char c) (utf8 s) (utf8 t))

-- Every character is a code point.
abbrev pub AreChars : Str → Type 0
AreChars = All (λ c. c < 0x110000)

utf8_char-AreBytes : (c : ℕ) → c < 0x110000 → AreBytes (utf8_char c)
unfolding utf8_char
utf8_char-AreBytes c h = elim (Bool-cases (ltb c 128)) [
  | inl e ↦ rw e (ground arith, tt)
  | inr e ↦ elim (Bool-cases (ltb c 2048)) [
    | inl e' ↦ rw (e, e') (ground arith, (ground arith, tt))
    | inr e' ↦ elim (Bool-cases (ltb c 65536)) [
      | inl e'' ↦ rw (e, e', e'') (ground arith, (ground arith, (ground arith, tt)))
      | inr e'' ↦ rw (e, e', e'') (ground arith, (ground arith, (ground arith, (ground arith, tt))))
    ]
  ]
]

utf8-AreBytes : (s : Str) → AreChars s → AreBytes (utf8 s)
unfolding utf8
utf8-AreBytes [] h = tt
utf8-AreBytes (c ∷ s) h =
    All-append (λ b. b < 256) (utf8_char c) (utf8 s) (utf8_char-AreBytes c h.0)
      (utf8-AreBytes s h.1)

utf8-ascii : (c : ℕ) (s : Str) → c < 128 → utf8 (c ∷ s) ≡ c ∷ utf8 s
unfolding utf8 utf8_char
utf8-ascii c s h = ground arith

seed-on :
    (origin : Str) (level : RandomizationLevel)
    → level ≢ off
    → canvas_noise_seed origin level ≡ fnv_from fnv_offset (utf8 origin)
unfolding canvas_noise_seed
seed-on origin level h = ground (arith, level_eq.same_iff level off)

seed-around :
    (before after : Str) (c : ℕ) (level : RandomizationLevel)
    → c < 128
    → level ≢ off
    → canvas_noise_seed (before ++ c ∷ after) level
      ≡ fnv_from fnv_offset (utf8 before ++ c ∷ utf8 after)
seed-around before after c level pc on =
    seed-on (before ++ c ∷ after) level on
    ∙ ap (fnv_from fnv_offset)
        (utf8-append before (c ∷ after) ∙ ap (λ l. utf8 before ++ l) (utf8-ascii c after pc))

seed_off : (origin : Str) → canvas_noise_seed origin off ≡ 0
unfolding canvas_noise_seed
seed_off origin = ground (arith, level_eq.same_iff off off)

-- With the level off the seed is 0. With any other two levels, origins that differ in one ASCII
-- character have different seeds, and one origin has the same seed at both.
pub canvas_noise_seed_differ :
    (before after : Str) (x y : ℕ) (level level' : RandomizationLevel)
    → x < 128
    → y < 128
    → AreChars after
    → level ≢ off
    → level' ≢ off
    → (canvas_noise_seed (before ++ x ∷ after) off ≡ 0)
      × ((canvas_noise_seed (before ++ x ∷ after) level
            ≡ canvas_noise_seed (before ++ y ∷ after) level')
          ↔ (x ≡ y))
canvas_noise_seed_differ before after x y level level' px py cs on on' = (
  seed_off (before ++ x ∷ after),
  (
    λ e.
        fnv_from_differ fnv_offset (utf8 before) (utf8 after) x y (omega arith) (omega arith)
          (omega arith) (utf8-AreBytes after cs)
          (sym (seed-around before after x level px on)
            ∙ e
            ∙ seed-around before after y level' py on'),
    λ e.
        seed-around before after x level px on
        ∙ ap (λ c. fnv_from fnv_offset (utf8 before ++ c ∷ utf8 after)) e
        ∙ sym (seed-around before after y level' py on'),
  ),
)
