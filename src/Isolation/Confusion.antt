-- ===== src/Isolation/Confusion.antt =====
-- A query that spells a host: where the two engines isolate differently.
use b_browser.Prelude.{
  zero, suc, [], All-append, All-imp, Str, List, ap, arith, chars, refl, sym, ℕ, length, ◌++◌, ◌∙◌,
  ◌∷◌, ◌≡◌, ◌≢◌, ◌+◌, ◌<◌, false,
}
use mathlib.Core.List.{append_assoc}
use b_browser.Isolation.Allocation.{u32_mod}
use b_browser.Isolation.Blink
use b_browser.Isolation.Gecko
use b_browser.Isolation.Blink.{site_for_url, process_for}
use b_browser.Isolation.Gecko.{principal_for, process_for_frame}
use b_browser.Isolation.Derivation.{
  is_dot, dotted, NoneOf, StartsWith, site_for_url-https, principal_for-https,
}
use b_browser.Isolation.Processes.{
  map_after, frames_after, process_for-same_site, process_for_frame-same_principal,
}

-- A host of at least three labels, of which `a` and `b` are the last two.
pub record IsHost (sub a b : Str) : Type 0 where
  pub plain : NoneOf Blink.ends_host (dotted sub a b)
  pub left : NoneOf is_dot a
  pub right : NoneOf is_dot b

Gecko_of_Blink : (s : Str) → NoneOf Blink.ends_host s → NoneOf Gecko.ends_host s
Gecko_of_Blink s = All-imp (λ c h. ground arith) s

Blink_of_Gecko : (s : Str) → StartsWith Gecko.ends_host s → StartsWith Blink.ends_host s
Blink_of_Gecko [] h = tt
Blink_of_Gecko (c ∷ s) h = ground arith

prefix_injective : (s t : Str) → chars "https://" ++ s ≡ chars "https://" ++ t → s ≡ t
prefix_injective s t e = ap (drop 8) e
  where
    drop : ℕ → Str → Str
    drop zero s = s
    drop (suc n) [] = []
    drop (suc n) (c ∷ s) = drop n s

-- An https URL on the host, with what follows it.
abbrev pub https : Str → Str → Str
https host tail = chars "https://" ++ (host ++ tail)

-- The URL of one host with a query that spells another host, its port or path included.
abbrev pub crafted : Str → Str → Str → Str
crafted host other tail = https host (b'?' ∷ (other ++ tail))

module _ {sub a b y c d : Str} (own : IsHost sub a b) (other : IsHost y c d) (tail : Str)
    (stops : StartsWith Gecko.ends_host tail) where
  site-crafted :
      site_for_url (crafted (dotted sub a b) (dotted y c d) tail)
      ≡ chars "https://" ++ (a ++ 46 ∷ b)
  site-crafted =
      site_for_url-https sub a b (b'?' ∷ (dotted y c d ++ tail)) own.plain own.left own.right refl

  site-other : site_for_url (https (dotted y c d) tail) ≡ chars "https://" ++ (c ++ 46 ∷ d)
  site-other =
      site_for_url-https y c d tail other.plain other.left other.right (Blink_of_Gecko tail stops)

  principal-other : principal_for (https (dotted y c d) tail) ≡ chars "https://" ++ (c ++ 46 ∷ d)
  principal-other =
      principal_for-https y c d tail (Gecko_of_Blink (dotted y c d) other.plain) other.left
        other.right stops

  principal-crafted :
      principal_for (crafted (dotted sub a b) (dotted y c d) tail)
      ≡ chars "https://" ++ (c ++ 46 ∷ d)
  principal-crafted =
      ap (λ t. principal_for (chars "https://" ++ t))
        (sym (append_assoc (dotted sub a b) (b'?' ∷ dotted y c d) tail)
          ∙ ap (λ h. h ++ tail)
              (sym (append_assoc (dotted sub a b) (b'?' ∷ y) (46 ∷ (c ++ 46 ∷ d)))))
      ∙ principal_for-https (dotted sub a b ++ b'?' ∷ y) c d tail
          (rw (append_assoc (dotted sub a b) (b'?' ∷ y) (46 ∷ (c ++ 46 ∷ d))) (
            All-append (λ x. Gecko.ends_host x ≡ false) (dotted sub a b) (b'?' ∷ dotted y c d)
              (Gecko_of_Blink (dotted sub a b) own.plain)
              (refl, Gecko_of_Blink (dotted y c d) other.plain)))
          other.left other.right stops

  -- An https URL whose query spells another host, with its port or path, gets in Gecko the process
  -- of that other host's site and in Blink another process than that, whatever was requested before
  -- and between the two, where the hosts have three labels or more, their last two differ, and
  -- fewer than 2^32 - 2001 URLs are requested.
  pub query_confuses :
      (later earlier : List Str)
      → a ++ 46 ∷ b ≢ c ++ 46 ∷ d
      → length (later ++ https (dotted y c d) tail ∷ earlier) + 1 + 2000 < u32_mod
      → ((process_for_frame
            (frames_after (later ++ https (dotted y c d) tail ∷ earlier))
            (crafted (dotted sub a b) (dotted y c d) tail)).0
          ≡ (process_for_frame (frames_after earlier) (https (dotted y c d) tail)).0)
        × ((process_for
              (map_after (later ++ https (dotted y c d) tail ∷ earlier))
              (crafted (dotted sub a b) (dotted y c d) tail)).0
            ≢ (process_for (map_after earlier) (https (dotted y c d) tail)).0)
  query_confuses later earlier ne room =
      let victim = https (dotted y c d) tail in
      let page = crafted (dotted sub a b) (dotted y c d) tail in
      (
        (process_for_frame-same_principal later earlier victim page room).1
            (principal-crafted ∙ sym principal-other),
        λ e. ne (
            prefix_injective (a ++ 46 ∷ b) (c ++ 46 ∷ d) (
              sym site-crafted
              ∙ (process_for-same_site later earlier victim page (omega arith)).0 e
              ∙ site-other)),
      )
