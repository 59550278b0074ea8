-- ===== src/Isolation/Overlap.antt =====
-- The ids that the two maps give out, side by side.
use b_browser.Isolation.Blink.{process_for}
use b_browser.Prelude.{
  ◌∷◌, ◌≡◌, ◌≢◌, List, Str, [], arith, length, length-map, map, refl, ◌+◌, ◌<◌, ◌≤◌,
}
use b_browser.Isolation.Allocation.{u32_mod}
use b_browser.Isolation.Blink
use b_browser.Isolation.Gecko
use b_browser.Isolation.Ranges.{Distinct, process_of-range, process_of-Distinct}
use b_browser.Isolation.Blink.{site_for_url, process_for}
use b_browser.Isolation.Gecko.{principal_for, process_for_frame}
use b_browser.Isolation.Processes.{map_after, frames_after, pids-map_after, pids-frames_after}

process_for-range :
    (urls : List Str) (url : Str)
    → length urls + 1 + 1000 < u32_mod
    → (1000 < (process_for (map_after urls) url).0)
      × ((process_for (map_after urls) url).0 ≤ length urls + 1 + 1000)
process_for-range urls url h =
    let range =
      process_of-range (map_after []).pids (unfold map_after Blink.new in refl)
        (map site_for_url urls) (site_for_url url)
        (unfold map_after Blink.new in omega (arith, length-map site_for_url urls)) in
    unfold process_for in
    rw (pids-map_after urls)
      (unfold map_after Blink.new in omega (arith, range, length-map site_for_url urls))

frames-range :
    (origins : List Str) (origin : Str)
    → length origins + 1 + 2000 < u32_mod
    → (2000 < (process_for_frame (frames_after origins) origin).0)
      × ((process_for_frame (frames_after origins) origin).0 ≤ length origins + 1 + 2000)
frames-range origins origin h =
    let range =
      process_of-range (frames_after []).pids (unfold frames_after Gecko.new in refl)
        (map principal_for origins) (principal_for origin)
        (unfold frames_after Gecko.new in omega (arith, length-map principal_for origins)) in
    unfold process_for_frame in
    rw (pids-frames_after origins)
      (unfold frames_after Gecko.new in omega (arith, range, length-map principal_for origins))

-- While at most 1000 URLs and fewer than 2^32 - 2001 frames are requested, no process id is given
-- out both to a renderer of Blink and to a content process of Gecko.
pub process_for-frame_disjoint :
    (urls origins : List Str) (url origin : Str)
    → length urls < 1000
    → length origins + 1 + 2000 < u32_mod
    → (process_for (map_after urls) url).0 ≢ (process_for_frame (frames_after origins) origin).0
process_for-frame_disjoint urls origins url origin few room e =
    omega
      (arith, e, (process_for-range urls url (omega arith)).1, (frames-range origins origin room).0)

-- After 1000 URLs of different sites, a URL of a further site gets the id of the first frame.
pub process_for-frame_overlap :
    (urls : List Str) (url origin : Str)
    → length urls ≡ 1000
    → Distinct (map site_for_url (url ∷ urls))
    → (process_for (map_after urls) url).0 ≡ (process_for_frame (frames_after []) origin).0
process_for-frame_overlap urls url origin many distinct =
    let pid =
      process_of-Distinct (map_after []).pids (unfold map_after Blink.new in refl)
        (map site_for_url urls) (site_for_url url) distinct
        (unfold map_after Blink.new in omega (arith, many, length-map site_for_url urls)) in
    let first = frames-range [] origin (omega arith) in
    unfold process_for in
    rw (pids-map_after urls) (
      unfold map_after Blink.new in
      omega (arith, pid, first.0, first.1, many, length-map site_for_url urls))
