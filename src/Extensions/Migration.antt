-- ===== src/Extensions/Migration.antt =====
-- What a migrated manifest asks for, and which warnings come with it.
use b_browser.Prelude.Eq.{◌==◌}
use b_browser.Prelude.{
  ◌∷◌, [], ◌∷◌, ◌&&◌, is_empty, not, Bool, List, Bool-cases, Str, [], arith, false, inl, inr, true,
  ◌↔◌, ◌≡◌, ◌≢◌, ◌⊎◌,
}
use b_browser.Policy.Precedence.{Resolver}
use b_browser.Extensions.Mv4.{
  ManifestVersion, v2, v3, v4, ManifestVersion-discrete, version_eq, IncomingManifest,
  background_warning, blocking_warning, host_warning, to_mv4, push_if,
}
use b_browser.Extensions.Bridge.{key_blocklist, allow, list_contains, evaluate}

-- Whatever its version, an incoming manifest that asks for blocking webRequest is not allowed to
-- install after the translation, under any policy.
pub to_mv4-blocking :
    (resolver : Resolver) (id source : Str) (m : IncomingManifest)
    → m.wants_blocking_web_request ≡ true
    → evaluate resolver id (to_mv4 m).0 ≢ allow source
unfolding to_mv4 evaluate
to_mv4-blocking resolver id source m h = λ e.
    elim (Bool-cases (list_contains resolver key_blocklist id)) [
      | inl b ↦ ground arith
      | inr b ↦ ground arith
    ]

silent :
    (version : ManifestVersion) (hosts : List Str) (blocking : Bool)
    → (push_if
          (not (is_empty hosts) && not (version == v4))
          host_warning
          (push_if blocking blocking_warning (push_if (version == v2) background_warning []))
        ≡ [])
      ↔ ((blocking ≡ false) × ((version ≡ v4) ⊎ ((version ≡ v3) × (hosts ≡ []))))
unfolding ManifestVersion-discrete
silent v2 [] true = ground arith
silent v2 [] false = ground arith
silent v2 (host ∷ hosts) true = ground arith
silent v2 (host ∷ hosts) false = ground arith
silent v3 [] true = ground arith
silent v3 [] false = ground arith
silent v3 (host ∷ hosts) true = ground arith
silent v3 (host ∷ hosts) false = ground arith
silent v4 [] true = ground arith
silent v4 [] false = ground arith
silent v4 (host ∷ hosts) true = ground arith
silent v4 (host ∷ hosts) false = ground arith

-- No warning comes exactly with a manifest of version 4, or of version 3 without host permissions,
-- that does not ask for blocking webRequest.
pub to_mv4-silent :
    (m : IncomingManifest)
    → ((to_mv4 m).1 ≡ []) ↔ (
        (m.wants_blocking_web_request ≡ false)
        × ((m.version ≡ v4) ⊎ ((m.version ≡ v3) × (m.host_permissions ≡ []))))
unfolding to_mv4
to_mv4-silent m = silent m.version m.host_permissions m.wants_blocking_web_request
