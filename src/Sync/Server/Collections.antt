-- ===== src/Sync/Server/Collections.antt =====
-- What `list` names after a history of writes.
use b_browser.Prelude.{
  refl, Bool-cases, List, Option, Str, [], arith, false, if◌then◌else◌, inl, inr, none, some,
  text_eq, true, ◌&&◌, ◌∷◌, ◌↔◌, ◌≡◌, ◌⊎◌,
}
use b_browser.Prelude.Eq.{◌==◌, contains}
use b_browser.Prelude.Assoc.{Assoc, lookup, HasUniqueKeys, insert-HasUniqueKeys}
use b_browser.Sync.Server.{Blob, RecordKey, key_eq, SyncStore, new, put, get, list, is_stale}
use b_browser.Sync.Server.Versions.{Op, put_op, after, get-put}
use b_browser.Sync.Server.Listing.{is_some, listed, key_of, listed_iff, contains-list}

-- No text comes twice.
abbrev pub IsOnceEach : List Str → Type 0
IsOnceEach [] = Unit
IsOnceEach (x ∷ xs) = (contains xs x ≡ false) × IsOnceEach xs

-- Some write of the history is for the key.
abbrev pub Written : RecordKey → List Op → Type 0
Written key [] = ⊥
Written key (put_op j blob ∷ h) = (j ≡ key) ⊎ Written key h

put-HasUniqueKeys :
    (s : SyncStore) (key : RecordKey) (blob : Blob)
    → HasUniqueKeys s.records
    → HasUniqueKeys (put s key blob).1.records
unfolding put
put-HasUniqueKeys s key blob u = elim (Bool-cases (is_stale (lookup key s.records) blob)) [
  | inl e ↦ rw e u
  | inr e ↦ rw e (insert-HasUniqueKeys key blob s.records u)
]

after-HasUniqueKeys : (h : List Op) → HasUniqueKeys (after h).records
unfolding after
after-HasUniqueKeys [] = unfold new in tt
after-HasUniqueKeys (put_op key blob ∷ h) =
    put-HasUniqueKeys (after h) key blob (after-HasUniqueKeys h)

listed-IsOnceEach :
    (account collection : Str) (m : Assoc RecordKey Blob)
    → HasUniqueKeys m
    → IsOnceEach (listed account collection m)
listed-IsOnceEach account collection [] u = tt
listed-IsOnceEach account collection ((k, b) ∷ m) (fresh, u) =
    let rest = listed-IsOnceEach account collection m u in
    elim (Bool-cases (k.account == account && k.collection == collection)) [
      | inl here ↦
          let same : key_of account collection k.record_id ≡ k =
            ground (
              arith,
              text_eq.same_iff k.account account,
              text_eq.same_iff k.collection collection,
            ) in
          rw here (cc (listed_iff account collection k.record_id m, same, fresh), rest)
      | inr away ↦ rw away rest
    ]

put_keeps :
    (o : Option Blob) (blob : Blob) → is_some (if is_stale o blob then o else some blob) ≡ true
put_keeps none blob = refl
put_keeps (some old) blob = ground arith

get-new : (key : RecordKey) → get new key ≡ none
unfolding get new lookup
get-new key = refl

get-after : (h : List Op) (key : RecordKey) → (is_some (get (after h) key) ≡ true) ↔ Written key h
unfolding after
get-after [] key = (λ e. absurd (ground (arith, get-new key)), λ w. absurd w)
get-after (put_op j blob ∷ h) key = ground (
  arith,
  get-after h key,
  get-put (after h) key j blob,
  put_keeps (get (after h) key) blob,
  key_eq.same_iff j key,
)

-- After any history of writes, refused ones among them, `list` names each record id that was ever
-- written in that account and collection, each once, and no other.
pub list-after :
    (h : List Op) (account collection : Str)
    → IsOnceEach (list (after h) account collection)
      × ((id : Str)
          → (contains (list (after h) account collection) id ≡ true)
            ↔ Written (key_of account collection id) h)
unfolding list
list-after h account collection = (
  listed-IsOnceEach account collection (after h).records (after-HasUniqueKeys h),
  λ id. ground (
    arith,
    contains-list (after h) account collection id,
    get-after h (key_of account collection id),
  ),
)
