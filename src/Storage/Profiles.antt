-- ===== src/Storage/Profiles.antt =====
-- engine/storage/src/lib.rs: profiles.
use b_browser.Prelude.{Bool, Str, false, true}

pub data ProfileKind : Type 0 where
  normal guest incognito tor : ProfileKind

pub record Profile : Type 0 where
  pub id : Str
  pub kind : ProfileKind
  pub isolated_network : Bool

abbrev pub is_isolated : ProfileKind → Bool
is_isolated incognito = true
is_isolated tor = true
is_isolated normal = false
is_isolated guest = false

unfoldable pub new : Str → ProfileKind → Profile
new id kind = record { id = id; kind = kind; isolated_network = is_isolated kind }

abbrev pub is_normal : ProfileKind → Bool
is_normal normal = true
is_normal guest = false
is_normal incognito = false
is_normal tor = false

unfoldable pub persists : Profile → Bool
persists p = is_normal p.kind
