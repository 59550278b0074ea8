-- ===== src/Sync/Client/Devices.antt =====
-- Several devices of one user over one server: what each of them sees of a record.
use mathlib.Core.Option
use b_browser.Prelude.{
  Bool, Bool-cases, List, Option, Option-cases, [], false, if◌then◌else◌, inl, inr, ltb, map, none,
  not, refl, some, true, ℕ, ◌&&◌, ◌∙◌, ◌∷◌, ◌≡◌, ap,
}
use b_browser.Prelude.Eq.{◌==◌}
use b_browser.Prelude.Assoc.{lookup}
use b_browser.Sync.E2ee.{UserKey}
use b_browser.Sync.E2ee.Sealing.{open-seal}
use b_browser.Sync.Server.{Blob, RecordKey, key_eq, SyncStore, new, get, is_stale}
use b_browser.Sync.Server.Versions.{Op, put_op, after, get-put}
use b_browser.Sync.Client.{DataType, prepare_upload, apply_download}
use b_browser.Sync.Client.Journey.{to_blob, of_blob}

-- An upload by one of the devices, which share the key.
pub record Upload : Type 0 where
  pub at : RecordKey
  pub data_type : DataType
  pub nonce : List ℕ
  pub plaintext : List ℕ
  pub version : ℕ

abbrev pub blob_of : UserKey → Upload → Blob
blob_of key u = to_blob (prepare_upload key u.data_type u.nonce u.plaintext).sealed u.version

abbrev pub op_of : UserKey → Upload → Op
op_of key u = put_op u.at (blob_of key u)

-- What a device shows of a record that it fetches.
unfoldable pub shown : UserKey → SyncStore → RecordKey → Option (List ℕ)
shown key s at = Option.map (λ b. apply_download key (of_blob b)) (get s at)

abbrev pub is_older : Option Upload → Upload → Bool
is_older none u = false
is_older (some old) u = ltb u.version old.version

-- A register of plaintexts without a server or a key: an upload at the record takes effect unless
-- its version is older than that of the upload in effect.
abbrev pub in_effect : RecordKey → List Upload → Option Upload
in_effect at [] = none
in_effect at (u ∷ earlier) =
    let before = in_effect at earlier in
    if u.at == at && not (is_older before u) then some u else before

-- The server's test on blobs is the register's on uploads.
effect_step :
    (key : UserKey) (u : Upload) (here : Bool) (before : Option Upload)
    → (if here
        then (if is_stale (Option.map (blob_of key) before) (blob_of key u)
            then Option.map (blob_of key) before
            else some (blob_of key u))
        else Option.map (blob_of key) before)
      ≡ Option.map (blob_of key) (if here && not (is_older before u) then some u else before)
effect_step key u false before = refl
effect_step key u true none = refl
effect_step key u true (some old) = elim (Bool-cases (ltb u.version old.version)) [
  | inl e ↦ rw e refl
  | inr e ↦ rw e refl
]

stored-in_effect :
    (key : UserKey) (at : RecordKey) (us : List Upload)
    → get (after (map (op_of key) us)) at ≡ Option.map (blob_of key) (in_effect at us)
unfolding after
stored-in_effect key at [] = unfold get new lookup in refl
stored-in_effect key at (u ∷ us) =
    get-put (after (map (op_of key) us)) at u.at (blob_of key u)
    ∙ rw (stored-in_effect key at us) (effect_step key u (u.at == at) (in_effect at us))

open-blob_of :
    (key : UserKey) (u : Upload) → apply_download key (of_blob (blob_of key u)) ≡ u.plaintext
unfolding prepare_upload apply_download
open-blob_of key u = open-seal key u.nonce u.plaintext

-- End to end: after any uploads by devices that share a key, the latest first in the list, each of
-- them shows for a record the plaintext of the upload in effect, and nothing where there is none.
pub shown-in_effect :
    (key : UserKey) (at : RecordKey) (us : List Upload)
    → shown key (after (map (op_of key) us)) at ≡ Option.map (λ u. u.plaintext) (in_effect at us)
unfolding shown
shown-in_effect key at us = elim (Option-cases (in_effect at us)) [
  | inl e ↦ rw (stored-in_effect key at us, e) refl
  | inr (u, e) ↦ rw (stored-in_effect key at us, e) (ap some (open-blob_of key u))
]
