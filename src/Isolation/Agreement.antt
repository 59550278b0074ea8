-- ===== src/Isolation/Agreement.antt =====
-- Where Blink's sites and Fission's principals agree, and with them the isolation of both engines.
use mathlib.Core.Path.{subst}
use b_browser.Prelude.{
  if◌then◌else◌, Bool, Bool-cases, List, Option, Str, [], ap, arith, chars, inl, inr, length,
  nat_same, none, refl, some, sym, ℕ, ◌++◌, ◌+◌, ◌<◌, ◌∙◌, ◌||◌, ◌∷◌, ◌≡◌, ◌↔◌,
}
use b_browser.Isolation.Hosts.{first_piece, registrable, site_of, split_scheme}
use b_browser.Isolation.Blink
use b_browser.Isolation.Gecko
use b_browser.Isolation.Allocation.{u32_mod}
use b_browser.Isolation.Blink.{site_for_url, process_for}
use b_browser.Isolation.Gecko.{principal_for, process_for_frame}
use b_browser.Isolation.Derivation.{NoneOf}
use b_browser.Isolation.Processes.{
  map_after, frames_after, process_for-same_site, process_for_frame-same_principal,
}

abbrev pub is_query : ℕ → Bool
is_query c = nat_same c 63 || nat_same c 35

-- What comes before the first `/` or `:` of the text after the scheme.
abbrev pub authority_of : Str → Option (Str × Str) → Str
authority_of url none = first_piece Gecko.ends_host url
authority_of url (some (scheme, rest)) = first_piece Gecko.ends_host rest

-- Between the scheme and the first `/` or `:` there is no `?` and no `#`.
abbrev pub IsPlain : Str → Type 0
IsPlain url = NoneOf is_query (authority_of url (split_scheme url))

first_piece-agree :
    (s : Str)
    → NoneOf is_query (first_piece Gecko.ends_host s)
    → first_piece Blink.ends_host s ≡ first_piece Gecko.ends_host s
first_piece-agree [] h = refl
first_piece-agree (c ∷ s) h = elim (Bool-cases (Gecko.ends_host c)) [
  | inl e ↦ ground arith
  | inr e ↦
      let plain : NoneOf is_query (c ∷ first_piece Gecko.ends_host s) =
        subst (λ b. NoneOf is_query (if b then [] else c ∷ first_piece Gecko.ends_host s)) e h in
      ground (arith, plain.0, first_piece-agree s plain.1)
]

site_of-agree :
    (url : Str) (parts : Option (Str × Str))
    → NoneOf is_query (authority_of url parts)
    → site_of Blink.ends_host url parts ≡ site_of Gecko.ends_host url parts
site_of-agree url none h =
    ap (λ p. chars "https" ++ (chars "://" ++ registrable p)) (first_piece-agree url h)
site_of-agree url (some (scheme, rest)) h =
    ap (λ p. scheme ++ (chars "://" ++ registrable p)) (first_piece-agree rest h)

site-principal : (url : Str) → IsPlain url → site_for_url url ≡ principal_for url
unfolding site_for_url principal_for
site-principal url h = site_of-agree url (split_scheme url) h

-- Both engines isolate alike: of two plain URLs, where no `?` or `#` stands between the scheme and
-- the first `/` or `:`, the site is the principal, and they get the same renderer process of Blink
-- exactly when they get the same content process of Gecko, whatever each engine was asked for
-- before and between them, while fewer than 2^32 - 2001 requests go to each.
pub process_for-process_for_frame :
    (later earlier frames_later frames_earlier : List Str) (url other : Str)
    → length (later ++ url ∷ earlier) + 1 + 2000 < u32_mod
    → length (frames_later ++ url ∷ frames_earlier) + 1 + 2000 < u32_mod
    → IsPlain url
    → IsPlain other
    → (site_for_url url ≡ principal_for url)
      × (((process_for (map_after (later ++ url ∷ earlier)) other).0
            ≡ (process_for (map_after earlier) url).0)
          ↔ ((process_for_frame (frames_after (frames_later ++ url ∷ frames_earlier)) other).0
              ≡ (process_for_frame (frames_after frames_earlier) url).0))
process_for-process_for_frame later earlier frames_later frames_earlier url other room frame_room
      plain plain' =
    let a = site-principal url plain in
    let b = site-principal other plain' in
    let blink = process_for-same_site later earlier url other (omega (arith, room)) in
    let gecko = process_for_frame-same_principal frames_later frames_earlier url other frame_room in
    (a, (λ e. gecko.1 (sym b ∙ blink.0 e ∙ a), λ e. blink.1 (b ∙ gecko.0 e ∙ sym a)))
