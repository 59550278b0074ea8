-- ===== src/Sync/Server/Listing.antt =====
-- `list` against `get`.
use b_browser.Prelude.{
  Bool, List, Option, Str, [], arith, false, filter, map, none, refl, some, text_eq, true, ◌&&◌,
  ◌∷◌, ◌≡◌,
}
use b_browser.Prelude.Eq.{◌==◌, contains}
use b_browser.Prelude.Assoc.{Assoc, lookup}
use b_browser.Sync.Server.{Blob, RecordKey, key_eq, SyncStore, get, list}

abbrev pub is_some {ℓ} : {A : Type ℓ} → Option A → Bool
is_some none = false
is_some (some a) = true

abbrev pub listed : Str → Str → Assoc RecordKey Blob → List Str
listed account collection m =
    map (λ (k : RecordKey). k.record_id)
      (filter (λ (k : RecordKey). k.account == account && k.collection == collection)
        (map (λ (p : RecordKey × Blob). p.0) m))

abbrev pub key_of : Str → Str → Str → RecordKey
key_of account collection record_id = record {
  account = account;
  collection = collection;
  record_id = record_id;
}

pub listed_iff :
    (account collection id : Str) (m : Assoc RecordKey Blob)
    → contains (listed account collection m) id ≡ is_some (lookup (key_of account collection id) m)
unfolding lookup
listed_iff account collection id [] = refl
listed_iff account collection id ((k, b) ∷ m) = ground (
  arith,
  listed_iff account collection id m,
  text_eq.same_iff k.account account,
  text_eq.same_iff k.collection collection,
  text_eq.same_iff k.record_id id,
  text_eq.same_iff id k.record_id,
)

-- `list` names exactly the record ids under which `get` finds a blob in that account and
-- collection.
pub contains-list :
    (s : SyncStore) (account collection id : Str)
    → contains (list s account collection) id
      ≡ is_some (get s (record { account = account; collection = collection; record_id = id }))
unfolding list get
contains-list s account collection id = listed_iff account collection id s.records
