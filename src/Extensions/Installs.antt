-- ===== src/Extensions/Installs.antt =====
-- When an extension is allowed.
use b_browser.Prelude.Eq.{◌==◌}
use b_browser.Prelude.{
  Bool, Bool-cases, Option-cases, Str, arith, chars, false, inl, inr, refl, some, text_eq, true,
  ◌++◌, ◌↔◌, ◌≡◌, ◌⊎◌,
}
use b_browser.Policy.Precedence.{ResolvedValue, Resolver, name, resolve}
use b_browser.Extensions.Mv4.{Mv4Manifest}
use b_browser.Extensions.Bridge.{
  key_install_mode, key_allowlist, key_blocklist, allow, deny, needs_admin_approval, list_contains,
  decide_mode, evaluate,
}

-- The resolved install mode lets the extension in.
pub record Admits (resolver : Resolver) (id source : Str) : Type 0 where
  pub mode : ResolvedValue
  pub resolved : resolve resolver key_install_mode ≡ some mode
  pub named : source ≡ name mode.source
  pub admitted :
      (mode.effective ≡ chars "allow_all")
      ⊎ ((mode.effective ≡ chars "allowlist") × (list_contains resolver key_allowlist id ≡ true))

allow_mode :
    (listed : Bool) (id source : Str) (mode : ResolvedValue)
    → decide_mode listed id (some mode) ≡ allow source
    → (source ≡ name mode.source)
      × ((mode.effective ≡ chars "allow_all")
          ⊎ ((mode.effective ≡ chars "allowlist") × (listed ≡ true)))
allow_mode listed id source mode h = elim (Bool-cases (mode.effective == chars "allow_all")) [
  | inl e ↦ (ground arith, inl ((text_eq.same_iff mode.effective (chars "allow_all")).0 e))
  | inr e ↦ elim (Bool-cases (mode.effective == chars "allowlist")) [
    | inl e' ↦ elim (Bool-cases listed) [
      | inl l ↦ (ground arith, inr ((text_eq.same_iff mode.effective (chars "allowlist")).0 e', l))
      | inr l ↦ absurd (ground arith)
    ]
    | inr e' ↦ absurd (ground arith)
  ]
]

mode_allows :
    (listed : Bool) (id : Str) (mode : ResolvedValue)
    → (mode.effective ≡ chars "allow_all")
      ⊎ ((mode.effective ≡ chars "allowlist") × (listed ≡ true))
    → decide_mode listed id (some mode) ≡ allow (name mode.source)
mode_allows listed id mode (inl e) = rw e refl
mode_allows listed id mode (inr (e, l)) = rw (e, l) refl

module _ (resolver : Resolver) (id : Str) (manifest : Mv4Manifest) where
  -- An extension is allowed exactly when it is not on the blocklist, does not ask for blocking
  -- webRequest, and the resolved install mode is `allow_all`, or `allowlist` with the extension on
  -- the allowlist; the layer named is the one that the mode comes from. Without an install mode it
  -- is never allowed.
  pub evaluate_iff :
      (source : Str)
      → (evaluate resolver id manifest ≡ allow source) ↔ (
          (list_contains resolver key_blocklist id ≡ false)
          × (manifest.blocking_web_request_requires_admin_approval ≡ false)
          × Admits resolver id source)
  unfolding evaluate
  evaluate_iff source = (
    λ h. elim (Option-cases (resolve resolver key_install_mode)) [
      | inl e ↦ absurd (ground arith)
      | inr (mode, e) ↦
          let parts =
            allow_mode (list_contains resolver key_allowlist id) id source mode (ground arith) in
          (
            ground arith,
            ground arith,
            record { mode = mode; resolved = e; named = parts.0; admitted = parts.1 },
          )
    ],
    λ (b, w, a). ground (
      arith,
      a.resolved,
      a.named,
      mode_allows (list_contains resolver key_allowlist id) id a.mode a.admitted,
    ),
  )

  -- A blocklisted extension is denied, and one that asks for blocking webRequest is never allowed
  -- without approval, whatever the install mode is.
  pub evaluate_guards :
      (list_contains resolver key_blocklist id ≡ true
        → evaluate resolver id manifest ≡ deny (id ++ chars " is on the admin blocklist"))
      × (list_contains resolver key_blocklist id ≡ false
          → manifest.blocking_web_request_requires_admin_approval ≡ true
          → evaluate resolver id manifest
            ≡ needs_admin_approval (chars "extension requests blocking webRequest"))
  unfolding evaluate
  evaluate_guards = (λ h. rw h refl, λ h w. rw (h, w) refl)
