-- ===== src/Isolation/Processes.antt =====
-- The processes that requests get, over any history of requests.
use mathlib.Core.List.{map-append}
use b_browser.Prelude.{
  List, Str, [], ap, arith, length, length-append, length-map, map, refl, ℕ, ◌++◌, ◌+◌, ◌<◌, ◌↔◌,
  ◌∷◌, ◌≡◌,
}
use b_browser.Isolation.Allocation.{u32_mod, process_of, pids_after, process_of-same}
use b_browser.Isolation.Blink
use b_browser.Isolation.Gecko
use b_browser.Isolation.Blink.{IsolationMap, site_for_url, process_for}
use b_browser.Isolation.Gecko.{FissionMap, principal_for, process_for_frame}

-- The map after some requests, the latest first.
unfoldable pub map_after : List Str → IsolationMap
map_after [] = Blink.new
map_after (url ∷ earlier) = (process_for (map_after earlier) url).1

unfoldable pub frames_after : List Str → FissionMap
frames_after [] = Gecko.new
frames_after (origin ∷ earlier) = (process_for_frame (frames_after earlier) origin).1

pub pids-map_after :
    (urls : List Str)
    → (map_after urls).pids ≡ pids_after (map_after []).pids (map site_for_url urls)
unfolding map_after pids_after process_for
pids-map_after [] = refl
pids-map_after (url ∷ earlier) =
    ap (λ m. (process_of m (site_for_url url)).1) (pids-map_after earlier)

pub pids-frames_after :
    (origins : List Str)
    → (frames_after origins).pids ≡ pids_after (frames_after []).pids (map principal_for origins)
unfolding frames_after pids_after process_for_frame
pids-frames_after [] = refl
pids-frames_after (origin ∷ earlier) =
    ap (λ m. (process_of m (principal_for origin)).1) (pids-frames_after earlier)

room_after :
    (site : Str → Str) (later earlier : List Str) (url : Str) (first : ℕ)
    → length (later ++ url ∷ earlier) + 1 + first < u32_mod
    → length (map site later ++ site url ∷ map site earlier) + 1 + first < u32_mod
room_after site later earlier url first room = omega (
  arith,
  length-append later (url ∷ earlier),
  length-append (map site later) (site url ∷ map site earlier),
  length-map site later,
  length-map site earlier,
)

-- While fewer than 2^32 - 1001 URLs are requested, two requests get the same renderer process
-- exactly when their URLs are of the same site, whatever was requested before and between them.
pub process_for-same_site :
    (later earlier : List Str) (url other : Str)
    → length (later ++ url ∷ earlier) + 1 + 1000 < u32_mod
    → ((process_for (map_after (later ++ url ∷ earlier)) other).0
        ≡ (process_for (map_after earlier) url).0)
      ↔ (site_for_url other ≡ site_for_url url)
process_for-same_site later earlier url other room =
    let same =
      process_of-same (map_after []).pids (unfold map_after Blink.new in refl)
        (map site_for_url later) (map site_for_url earlier) (site_for_url url) (site_for_url other)
        (unfold map_after Blink.new in room_after site_for_url later earlier url 1000 room) in
    unfold process_for in
    rw
      (
        pids-map_after (later ++ url ∷ earlier),
        pids-map_after earlier,
        map-append site_for_url later (url ∷ earlier),
      )
      same

-- While fewer than 2^32 - 2001 frames are requested, two frames get the same content process
-- exactly when their principals are the same, whatever was requested before and between them.
pub process_for_frame-same_principal :
    (later earlier : List Str) (origin other : Str)
    → length (later ++ origin ∷ earlier) + 1 + 2000 < u32_mod
    → ((process_for_frame (frames_after (later ++ origin ∷ earlier)) other).0
        ≡ (process_for_frame (frames_after earlier) origin).0)
      ↔ (principal_for other ≡ principal_for origin)
process_for_frame-same_principal later earlier origin other room =
    let same =
      process_of-same (frames_after []).pids (unfold frames_after Gecko.new in refl)
        (map principal_for later) (map principal_for earlier) (principal_for origin)
        (principal_for other)
        (unfold frames_after Gecko.new in
          room_after principal_for later earlier origin 2000 room) in
    unfold process_for_frame in
    rw
      (
        pids-frames_after (later ++ origin ∷ earlier),
        pids-frames_after earlier,
        map-append principal_for later (origin ∷ earlier),
      )
      same
