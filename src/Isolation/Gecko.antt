-- ===== src/Isolation/Gecko.antt =====
-- engine/gecko-integration/src/fission.rs: the content process of a site principal.
use b_browser.Prelude.{Bool, Str, [], nat_same, ℕ, ◌||◌}
use b_browser.Isolation.Allocation.{Pids, process_of}
use b_browser.Isolation.Hosts.{split_scheme, site_of}

-- `['/', ':']`
abbrev pub ends_host : ℕ → Bool
ends_host c = nat_same c 47 || nat_same c 58

-- The handle of lib.rs, which no function reads.
pub record GeckoContentProcess : Type 0 where
  pub pid : ℕ
  pub principal : Str

unfoldable pub principal_for : Str → Str
principal_for origin = site_of ends_host origin (split_scheme origin)

-- `by_principal` and `next_pid`
pub record FissionMap : Type 0 where
  pub pids : Pids

unfoldable pub new : FissionMap
new = record { pids = record { by_key = []; next_pid = 2000 } }

unfoldable pub process_for_frame : FissionMap → Str → ℕ × FissionMap
unfolding process_of principal_for
process_for_frame m frame_origin =
    let (pid, pids) = process_of m.pids (principal_for frame_origin) in
    (pid, record { pids = pids })
