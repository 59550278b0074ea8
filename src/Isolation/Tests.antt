-- ===== src/Isolation/Tests.antt =====
-- The unit tests of site_isolation.rs and fission.rs, and the theorems at concrete inputs.
use b_browser.Prelude.{ap, ◌≢◌, true, not, all, Bool, ℕ, Str, [], arith, chars, refl, ◌↔◌, ◌∷◌, ◌≡◌}
use b_browser.Isolation.Confusion.{IsHost, query_confuses}
use b_browser.Isolation.Blink
use b_browser.Isolation.Gecko
use b_browser.Isolation.Overlap.{process_for-frame_disjoint}
use b_browser.Isolation.Derivation.{NoneOf, is_dot, site_for_url-https, principal_for-https}
use b_browser.Isolation.Blink.{site_for_url, process_for}
use b_browser.Isolation.Gecko.{principal_for, process_for_frame}
use b_browser.Isolation.Agreement.{is_query, IsPlain, process_for-process_for_frame}
use b_browser.Isolation.Processes.{
  map_after, frames_after, process_for-same_site, process_for_frame-same_principal,
}

scheme_is_part : site_for_url (chars "https://a.example.com/x") ≡ chars "https://example.com"
unfolding site_for_url
scheme_is_part = refl

-- A query right after the host: Blink ends the host there, Fission does not.
query_ends_host : site_for_url (chars "https://a.test?q=x.y") ≡ chars "https://a.test"
unfolding site_for_url
query_ends_host = refl

query_in_principal : principal_for (chars "https://a.test?q=x.y") ≡ chars "https://test?q=x.y"
unfolding principal_for
query_in_principal = refl

abbrev page : Str
page = chars "https://www.example.com/b"

abbrev other_page : Str
other_page = chars "https://example.com/a"

abbrev evil : Str
evil = chars "https://evil.test/"

process_for-same_site_example :
    ((process_for (map_after (evil ∷ page ∷ [])) other_page).0
      ≡ (process_for (map_after []) page).0)
    ↔ (site_for_url other_page ≡ site_for_url page)
process_for-same_site_example = process_for-same_site (evil ∷ []) [] page other_page (omega arith)

process_for_frame-same_principal_run :
    ((process_for_frame (frames_after (evil ∷ page ∷ [])) other_page).0
      ≡ (process_for_frame (frames_after []) page).0)
    ↔ (principal_for other_page ≡ principal_for page)
process_for_frame-same_principal_run =
    process_for_frame-same_principal (evil ∷ []) [] page other_page (omega arith)

All-all : (p : ℕ → Bool) (s : Str) → all (λ c. not (p c)) s ≡ true → NoneOf p s
All-all p [] h = tt
All-all p (c ∷ s) h = (ground arith, All-all p s (ground arith))

site_for_url-https_run :
    site_for_url (chars "https://a.b.example.com?q=evil.test") ≡ chars "https://example.com"
site_for_url-https_run =
    site_for_url-https (chars "a.b") (chars "example") (chars "com") (chars "?q=evil.test")
      (All-all Blink.ends_host (chars "a.b.example.com") refl)
      (All-all is_dot (chars "example") refl) (All-all is_dot (chars "com") refl) refl

-- A frame of evil.test gets the principal of bank.com.
principal_for-https_run :
    principal_for (chars "https://evil.test?.bank.com/x") ≡ chars "https://bank.com"
principal_for-https_run =
    principal_for-https (chars "evil.test?") (chars "bank") (chars "com") (chars "/x")
      (All-all Gecko.ends_host (chars "evil.test?.bank.com") refl)
      (All-all is_dot (chars "bank") refl) (All-all is_dot (chars "com") refl) refl

process_for-frame_disjoint_example :
    (process_for (map_after (evil ∷ page ∷ [])) other_page).0
    ≢ (process_for_frame (frames_after (page ∷ [])) evil).0
process_for-frame_disjoint_example =
    process_for-frame_disjoint (evil ∷ page ∷ []) (page ∷ []) other_page evil (omega arith)
      (omega arith)

page-IsPlain : IsPlain page
page-IsPlain = All-all is_query (chars "www.example.com") refl

other_page-IsPlain : IsPlain other_page
other_page-IsPlain = All-all is_query (chars "example.com") refl

process_for-process_for_frame_example :
    (site_for_url page ≡ principal_for page)
    × (((process_for (map_after (evil ∷ page ∷ [])) other_page).0
          ≡ (process_for (map_after []) page).0)
        ↔ ((process_for_frame (frames_after (page ∷ [])) other_page).0
            ≡ (process_for_frame (frames_after []) page).0))
process_for-process_for_frame_example =
    process_for-process_for_frame (evil ∷ []) [] [] [] page other_page (omega arith) (omega arith)
      page-IsPlain other_page-IsPlain

abbrev initial : Str → ℕ
initial [] = 0
initial (c ∷ s) = c

evil-IsHost : IsHost (chars "www") (chars "evil") (chars "test")
evil-IsHost = record {
  plain = All-all Blink.ends_host (chars "www.evil.test") refl;
  left = All-all is_dot (chars "evil") refl;
  right = All-all is_dot (chars "test") refl;
}

bank-IsHost : IsHost (chars "www") (chars "bank") (chars "com")
bank-IsHost = record {
  plain = All-all Blink.ends_host (chars "www.bank.com") refl;
  left = All-all is_dot (chars "bank") refl;
  right = All-all is_dot (chars "com") refl;
}

query_confuses_example :
    ((process_for_frame
        (frames_after (chars "https://www.bank.com/x" ∷ []))
        (chars "https://www.evil.test?www.bank.com/x")).0
      ≡ (process_for_frame (frames_after []) (chars "https://www.bank.com/x")).0)
    × ((process_for
          (map_after (chars "https://www.bank.com/x" ∷ []))
          (chars "https://www.evil.test?www.bank.com/x")).0
        ≢ (process_for (map_after []) (chars "https://www.bank.com/x")).0)
query_confuses_example =
    query_confuses evil-IsHost bank-IsHost (chars "/x") refl [] []
      (λ e. absurd (omega (arith, ap initial e))) (omega arith)
