-- ===== src/Storage/SiteSettings.antt =====
-- engine/storage/src/site_settings.rs: zoom and permissions of a site. The type of floats and its 1.0
-- are parameters: no operation computes with them.
use b_browser.Prelude.Eq.{of_discrete, PartialEq}
use b_browser.Prelude.{Bool, Option, [], false, none, some, true}
use b_browser.Prelude.Assoc.{Assoc, lookup, insert}

pub data Permission : Type 0 where
  cookies javascript images popups sound location camera microphone sensors : Permission
  payment_handler usb serial hid midi ar_vr clipboard idle_detection : Permission
  automatic_downloads protocol_handlers : Permission

unfoldable pub Permission-discrete : Discrete Permission
Permission-discrete = hlevel

instance abbrev pub permission_eq : PartialEq Permission
permission_eq = of_discrete Permission-discrete

pub data PermissionState : Type 0 where
  allow block one_time ask : PermissionState

pub record SiteSettings (F32 : Type 0) : Type 0 where
  pub zoom : F32
  pub perms : Assoc Permission PermissionState

abbrev pub or_ask : Option PermissionState → PermissionState
or_ask none = ask
or_ask (some state) = state

abbrev pub grants_access : PermissionState → Bool
grants_access allow = true
grants_access one_time = true
grants_access block = false
grants_access ask = false

module _ {F32 : Type 0} where
  -- `SiteSettings::default()`
  unfoldable pub default_settings : F32 → SiteSettings F32
  default_settings one = record { zoom = one; perms = [] }

  unfoldable pub permission : SiteSettings F32 → Permission → PermissionState
  permission s p = or_ask (lookup p s.perms)

  unfoldable pub set : SiteSettings F32 → Permission → PermissionState → SiteSettings F32
  set s p state = record s { perms = insert p state s.perms }

  unfoldable pub is_granted : SiteSettings F32 → Permission → Bool
  unfolding permission
  is_granted s p = grants_access (permission s p)
