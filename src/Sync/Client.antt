-- ===== src/Sync/Client.antt =====
-- sync/client/src/lib.rs: records sealed before upload and opened after download.
pub mod Journey
pub mod Devices
mod Tests
use b_browser.Prelude.{List, ℕ}
use b_browser.Sync.E2ee.{UserKey, SealedRecord, seal, open_record}

pub data DataType : Type 0 where
  bookmarks history passwords open_tabs extensions settings payment_methods : DataType
  addresses themes : DataType

pub record OutgoingRecord : Type 0 where
  pub data_type : DataType
  pub sealed : SealedRecord

unfoldable pub prepare_upload : UserKey → DataType → List ℕ → List ℕ → OutgoingRecord
prepare_upload key data_type nonce plaintext = record {
  data_type = data_type;
  sealed = seal key nonce plaintext;
}

unfoldable pub apply_download : UserKey → SealedRecord → List ℕ
apply_download key r = open_record key r
