-- ===== src/Tools/Tests.antt =====
-- Runs of the programs in tools/ and of the build script, and the theorems at concrete inputs.
use b_browser.Prelude.Assoc.{insert, lookup}
use b_browser.Prelude.Eq.{nat_eq, ◌==◌}
use b_browser.Prelude.{
  ◌*◌, List, [], arith, chars, err, if◌then◌else◌, is_empty, length, none, ok, refl, some, true, ℕ,
  ◌∷◌, ◌≡◌,
}
use b_browser.Policy.Precedence.{Layer-discrete}
use b_browser.Policy.Provenance
use b_browser.Policy.Provenance.{to_log_line, with_input}
use b_browser.Tools.Simulator
use b_browser.Tools.Fuzz.{net_alpn, redaction}
use b_browser.Tools.FuzzTargets.{fuzz_targets_pass}
use b_browser.Tools.Icon.{rgb, grayscale, to_rgba8, Crates, Files, regenerate_ico, write_warning}
use b_browser.Tools.IconBuild.{Succeeds, length-to_rgba8, regenerate_ico-keeps}

simulates :
    Simulator.main
      (chars "policy-simulator" ∷ chars "--bundle" ∷ chars "policy.rego" ∷ chars "--scenario" ∷ [])
    ≡ chars "b2030b policy simulate"
      ∷ chars "  bundle   = policy.rego"
      ∷ chars "  scenario = <none>"
      ∷ []
      ∷ chars "Effective: https://dns.quad9.net/dns-query (source=enterprise, locked=true)"
      ∷ chars
          "Provenance span: domain=network key=doh.provider decision=https://dns.quad9.net/dns-query rule=enterprise_doh source=enterprise inputs=[data_residency=eu]"
      ∷ []
unfolding Simulator.main Layer-discrete to_log_line lookup insert with_input Provenance.new
simulates = refl

fuzz_targets_pass_run : (net_alpn (chars "http/1.1") ≡ true) × (redaction (chars "http/1.1") ≡ true)
fuzz_targets_pass_run = fuzz_targets_pass (chars "http/1.1")

expands_grayscale : to_rgba8 (7 ∷ 9 ∷ []) 2 1 grayscale ≡ 7 ∷ 7 ∷ 7 ∷ 255 ∷ 9 ∷ 9 ∷ 9 ∷ 255 ∷ []
unfolding to_rgba8
expands_grayscale = refl

length-to_rgba8_run : length (to_rgba8 (1 ∷ 2 ∷ 3 ∷ 4 ∷ 5 ∷ 6 ∷ []) 1 2 rgb) ≡ 8
length-to_rgba8_run = length-to_rgba8 (1 ∷ 2 ∷ 3 ∷ 4 ∷ 5 ∷ 6 ∷ []) 1 2 rgb (omega arith) refl

-- A decoder that takes the file's bytes for one row of gray pixels, and an encoder that keeps them.
abbrev plain : Crates (List ℕ) (List ℕ) (List ℕ)
plain = record {
  read_info = λ bytes. if is_empty bytes then err (chars "empty") else ok bytes;
  next_frame = λ bytes.
      ok (record { width = length bytes; height = 1; color_type = grayscale; buffer = bytes });
  from_rgba_data =
      λ width height pixels. if length pixels == width * height * 4 then some pixels else none;
  encode = λ pixels. ok pixels;
  write = λ pixels. (pixels, none);
}

abbrev files : List ℕ → Files
files png = record { icon_png = some png; icon_ico = some (9 ∷ []); can_create = true }

makes_icon :
    regenerate_ico plain (files (7 ∷ []))
    ≡ (some [], record (files (7 ∷ [])) { icon_ico = some (7 ∷ 7 ∷ 7 ∷ 255 ∷ []) })
unfolding regenerate_ico to_rgba8
makes_icon = refl

keeps_icon :
    regenerate_ico plain (files [])
    ≡ (some (chars "could not read icon.png (empty); keeping existing icon.ico" ∷ []), files [])
unfolding regenerate_ico
keeps_icon = refl

regenerate_ico-keeps_example :
    ((s : Succeeds plain (files (7 ∷ [])))
      → regenerate_ico plain (files (7 ∷ [])) ≡ (
        some (write_warning (plain.write s.entry).1),
        record (files (7 ∷ [])) { icon_ico = some (plain.write s.entry).0 },
      ))
    × (¬ Succeeds plain (files (7 ∷ []))
        → (regenerate_ico plain (files (7 ∷ []))).1 ≡ files (7 ∷ []))
regenerate_ico-keeps_example = regenerate_ico-keeps plain (files (7 ∷ []))

-- The steps succeed there, so that the icon is replaced.
gray-Succeeds : Succeeds plain (files (7 ∷ []))
unfolding to_rgba8
gray-Succeeds = record {
  png = 7 ∷ [];
  reader = 7 ∷ [];
  frame = record { width = 1; height = 1; color_type = grayscale; buffer = 7 ∷ [] };
  image = 7 ∷ 7 ∷ 7 ∷ 255 ∷ [];
  entry = 7 ∷ 7 ∷ 7 ∷ 255 ∷ [];
  opened = refl;
  read = refl;
  decoded = refl;
  drawn = refl;
  encoded = refl;
  created = refl;
}

-- The decoded bytes of a channel of 16 bits, which are two for each pixel: a panic.
abbrev wide : Crates (List ℕ) (List ℕ) (List ℕ)
wide = record plain {
  next_frame =
      λ bytes. ok (record { width = 1; height = 1; color_type = grayscale; buffer = 0 ∷ bytes });
}

panics : regenerate_ico wide (files (7 ∷ [])) ≡ (none, files (7 ∷ []))
unfolding regenerate_ico to_rgba8
panics = refl
