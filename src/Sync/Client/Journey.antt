-- ===== src/Sync/Client/Journey.antt =====
-- A record's way: sealed by the client, stored by the server, opened by the client.
use b_browser.Prelude.{List, arith, ok, some, ℕ, ◌∙◌, ◌≡◌, ◌≢◌, ◌≤◌}
use b_browser.Prelude.Eq.{same_refl}
use b_browser.Sync.E2ee.{UserKey, SealedRecord}
use b_browser.Sync.E2ee.Sealing.{open-seal}
use b_browser.Sync.Server.{Blob, RecordKey, key_eq, SyncStore, put, get}
use b_browser.Sync.Server.Versions.{put_lem}
use b_browser.Sync.Client.{DataType, prepare_upload, apply_download}

-- The blob that is uploaded for a sealed record, and the record that is read from a blob.
abbrev pub to_blob : SealedRecord → ℕ → Blob
to_blob r version = record { nonce = r.nonce; ciphertext = r.ciphertext; version = version }

abbrev pub of_blob : Blob → SealedRecord
of_blob b = record { nonce = b.nonce; ciphertext = b.ciphertext }

-- What a client seals and uploads under a version that is not older than the stored one, the
-- server accepts, returns at its key, and the client opens to the plaintext; other keys keep what
-- they had.
pub upload-download :
    (key : UserKey) (kind : DataType) (nonce plaintext : List ℕ) (s : SyncStore) (at : RecordKey)
    (version : ℕ)
    → ((old : Blob) → get s at ≡ some old → old.version ≤ version)
    → let blob = to_blob (prepare_upload key kind nonce plaintext).sealed version in
      ((put s at blob).0 ≡ ok tt)
      × (get (put s at blob).1 at ≡ some blob)
      × (apply_download key (of_blob blob) ≡ plaintext)
      × ((j : RecordKey) → j ≢ at → get (put s at blob).1 j ≡ get s j)
upload-download key kind nonce plaintext s at version fresh =
    let blob = to_blob (prepare_upload key kind nonce plaintext).sealed version in
    let (accepted, stored) = (put_lem s at blob).1 fresh in
    (
      accepted,
      stored at ∙ ground (arith, same_refl at),
      unfold prepare_upload apply_download in open-seal key nonce plaintext,
      λ j ne. stored j ∙ ground (arith, key_eq.same_iff at j),
    )
