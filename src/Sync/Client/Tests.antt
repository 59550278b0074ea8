-- ===== src/Sync/Client/Tests.antt =====
-- The theorem at a concrete input.
use b_browser.Prelude.{List, map, ℕ, Str, [], chars, ok, some, ◌∷◌, ◌≡◌, ◌≢◌, ◌≤◌}
use b_browser.Prelude.Assoc.{lookup}
use b_browser.Sync.E2ee.{UserKey}
use b_browser.Sync.Server.{Blob, RecordKey, new, put, get}
use b_browser.Sync.Client.{bookmarks, prepare_upload, apply_download}
use b_browser.Sync.Server.Versions.{after}
use b_browser.Sync.Client.Devices.{Upload, op_of, shown, shown-in_effect}
use b_browser.Sync.Client.Journey.{to_blob, of_blob, upload-download}

abbrev user_key : UserKey
user_key = record { bytes = 1 ∷ 2 ∷ 3 ∷ [] }

abbrev place : RecordKey
place = record { account = chars "acct"; collection = chars "bookmarks"; record_id = chars "1" }

abbrev uploaded : Blob
uploaded =
    to_blob (prepare_upload user_key bookmarks (3 ∷ []) (chars "https://rust-lang.org")).sealed 1

nothing_stored : (old : Blob) → get new place ≡ some old → old.version ≤ 1
unfolding get new lookup
nothing_stored old e = absurd (cc)

upload-download_run :
    ((put new place uploaded).0 ≡ ok tt)
    × (get (put new place uploaded).1 place ≡ some uploaded)
    × (apply_download user_key (of_blob uploaded) ≡ chars "https://rust-lang.org")
    × ((j : RecordKey) → j ≢ place → get (put new place uploaded).1 j ≡ get new j)
upload-download_run =
    upload-download user_key bookmarks (3 ∷ []) (chars "https://rust-lang.org") new place 1
      nothing_stored

abbrev upload : Str → ℕ → Upload
upload text version = record {
  at = place;
  data_type = bookmarks;
  nonce = 3 ∷ [];
  plaintext = text;
  version = version;
}

-- The first in time is the last in the list; the one of version 4 comes too late.
abbrev uploads : List Upload
uploads = upload (chars "late") 4 ∷ upload (chars "second") 5 ∷ upload (chars "first") 4 ∷ []

shown-in_effect_example :
    shown user_key (after (map (op_of user_key) uploads)) place ≡ some (chars "second")
shown-in_effect_example = shown-in_effect user_key place uploads
