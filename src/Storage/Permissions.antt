-- ===== src/Storage/Permissions.antt =====
-- A permission after any calls of `set`.
use b_browser.Prelude.Eq.{◌==◌}
use b_browser.Prelude.{
  List, Option, [], arith, if◌then◌else◌, none, refl, some, true, ◌↔◌, ◌∷◌, ◌≡◌, ◌⊎◌,
}
use b_browser.Prelude.Assoc.{lookup, lookup-insert}
use b_browser.Storage.SiteSettings.{
  Permission, permission_eq, PermissionState, allow, block, one_time, ask, grants_access, or_ask,
  SiteSettings, default_settings, permission, set, is_granted,
}

module _ {F32 : Type 0} (one : F32) where
  -- The settings after some calls of `set`, the latest first.
  unfoldable pub settings_after : List (Permission × PermissionState) → SiteSettings F32
  settings_after [] = default_settings one
  settings_after ((p, state) ∷ earlier) = set (settings_after earlier) p state

  -- The state that the latest call for the permission set.
  abbrev pub latest : Permission → List (Permission × PermissionState) → Option PermissionState
  latest p [] = none
  latest p ((q, state) ∷ earlier) = if q == p then some state else latest p earlier

  lookup-settings_after :
      (calls : List (Permission × PermissionState)) (p : Permission)
      → lookup p (settings_after calls).perms ≡ latest p calls
  unfolding settings_after set
  lookup-settings_after [] p = unfold default_settings lookup in refl
  lookup-settings_after ((q, state) ∷ earlier) p = ground (
    arith,
    lookup-insert q p state (settings_after earlier).perms,
    lookup-settings_after earlier p,
  )

  granted_by :
      (o : Option PermissionState)
      → (grants_access (or_ask o) ≡ true) ↔ ((o ≡ some allow) ⊎ (o ≡ some one_time))
  granted_by none = ground arith
  granted_by (some allow) = ground arith
  granted_by (some block) = ground arith
  granted_by (some one_time) = ground arith
  granted_by (some ask) = ground arith

  -- After any calls of `set` on fresh settings a permission is granted exactly when the latest call
  -- for it set `allow` or `one_time`. One that was never set is not granted.
  pub is_granted-settings_after :
      (calls : List (Permission × PermissionState)) (p : Permission)
      → (is_granted (settings_after calls) p ≡ true)
        ↔ ((latest p calls ≡ some allow) ⊎ (latest p calls ≡ some one_time))
  unfolding is_granted permission
  is_granted-settings_after calls p =
      rw (lookup-settings_after calls p) (granted_by (latest p calls))
