-- ===== src/Isolation/Blink.antt =====
-- engine/blink-integration/src/site_isolation.rs: the renderer process of a site.
use b_browser.Prelude.{Bool, Str, [], nat_same, ℕ, ◌||◌}
use b_browser.Isolation.Allocation.{Pids, process_of}
use b_browser.Isolation.Hosts.{split_scheme, site_of}

-- `['/', ':', '?', '#']`
abbrev pub ends_host : ℕ → Bool
ends_host c = nat_same c 47 || nat_same c 58 || nat_same c 63 || nat_same c 35

-- The handle of lib.rs, which no function reads.
pub record RendererProcess : Type 0 where
  pub pid : ℕ
  pub site : Str

unfoldable pub site_for_url : Str → Str
site_for_url url = site_of ends_host url (split_scheme url)

-- `sites` and `next_pid`
pub record IsolationMap : Type 0 where
  pub pids : Pids

unfoldable pub new : IsolationMap
new = record { pids = record { by_key = []; next_pid = 1000 } }

unfoldable pub process_for : IsolationMap → Str → ℕ × IsolationMap
unfolding process_of site_for_url
process_for m url =
    let (pid, pids) = process_of m.pids (site_for_url url) in (pid, record { pids = pids })
