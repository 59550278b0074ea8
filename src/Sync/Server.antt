-- ===== src/Sync/Server.antt =====
-- sync/server/src/lib.rs: the store of opaque blobs.
pub mod Versions
pub mod Listing
pub mod Collections
pub mod Convergence
mod Tests
use b_browser.Prelude.{
  Bool, List, Option, Result, Str, [], arith, chars, err, false, filter, if◌then◌else◌, ltb, map,
  none, ok, some, text_eq, true, ℕ, ◌&&◌, ◌↔◌, ◌≡◌,
}
use b_browser.Prelude.Eq.{PartialEq, ◌==◌}
use b_browser.Prelude.Assoc.{Assoc, lookup, insert}

pub record Blob : Type 0 where
  -- 24 bytes
  pub nonce : List ℕ
  pub ciphertext : List ℕ
  pub version : ℕ

pub record RecordKey : Type 0 where
  pub account : Str
  pub collection : Str
  pub record_id : Str

abbrev pub key_same : RecordKey → RecordKey → Bool
key_same a b =
    a.account == b.account && (a.collection == b.collection && a.record_id == b.record_id)

pub key_same_iff : (a b : RecordKey) → (key_same a b ≡ true) ↔ (a ≡ b)
key_same_iff a b = ground (
  arith,
  text_eq.same_iff a.account b.account,
  text_eq.same_iff a.collection b.collection,
  text_eq.same_iff a.record_id b.record_id,
)

instance abbrev pub key_eq : PartialEq RecordKey
key_eq = record { same = key_same; same_iff = key_same_iff }

pub record SyncStore : Type 0 where
  pub records : Assoc RecordKey Blob

unfoldable pub new : SyncStore
new = record { records = [] }

abbrev pub stale : Str
stale = chars "stale write: version older than stored"

abbrev pub is_stale : Option Blob → Blob → Bool
is_stale none blob = false
is_stale (some existing) blob = ltb blob.version existing.version

unfoldable pub put : SyncStore → RecordKey → Blob → Result (Unit {0}) Str × SyncStore
put s key blob =
    if is_stale (lookup key s.records) blob
    then (err stale, s)
    else (ok tt, record { records = insert key blob s.records })

unfoldable pub get : SyncStore → RecordKey → Option Blob
get s key = lookup key s.records

-- The ids come in the order of the model's list; the order of a `HashMap` is not specified.
unfoldable pub list : SyncStore → Str → Str → List Str
list s account collection =
    map (λ (k : RecordKey). k.record_id)
      (filter (λ (k : RecordKey). k.account == account && k.collection == collection)
        (map (λ (p : RecordKey × Blob). p.0) s.records))
