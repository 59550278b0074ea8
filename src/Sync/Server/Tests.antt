-- ===== src/Sync/Server/Tests.antt =====
-- The unit tests of sync/server/src/lib.rs, and the theorems at concrete inputs.
use b_browser.Prelude.{
  Str, true, ◌↔◌, arith, inr, sym, ◌∙◌, inl, text_eq, List, [], chars, err, if◌then◌else◌, ok, refl,
  some, ℕ, ◌<◌, ◌∷◌, ◌≡◌, ◌≤◌,
}
use b_browser.Prelude.Eq.{◌==◌, contains}
use b_browser.Prelude.Assoc.{lookup, insert}
use b_browser.Sync.Server.{Blob, RecordKey, key_eq, new, put, get, list, stale}
use b_browser.Sync.Server.Versions.{Op, put_op, after, Reads, put_lem, after-Reads}
use b_browser.Sync.Server.Convergence.{ConflictFree, after-SameWrites}
use b_browser.Sync.Server.Collections.{IsOnceEach, Written, list-after}
use b_browser.Sync.Server.Listing.{key_of, is_some, contains-list}

abbrev place : RecordKey
place = record { account = chars "acct"; collection = chars "bookmarks"; record_id = chars "1" }

abbrev blob : ℕ → ℕ → Blob
blob byte version = record { nonce = []; ciphertext = byte ∷ []; version = version }

-- Written at version 5, refused at 4, overwritten at 5.
abbrev history : List Op
history = put_op place (blob 3 5) ∷ put_op place (blob 2 4) ∷ put_op place (blob 1 5) ∷ []

reads_latest : get (after history) place ≡ some (blob 3 5)
unfolding get after put new lookup insert
reads_latest = refl

refused : (put (after history) place (blob 9 4)).0 ≡ err stale
unfolding after put new lookup insert
refused = refl

listed : list (after history) (chars "acct") (chars "bookmarks") ≡ chars "1" ∷ []
unfolding list after put new lookup insert
listed = refl

put_lem_run :
    ((old : Blob)
      → get (after history) place ≡ some old
      → 4 < old.version
      → put (after history) place (blob 9 4) ≡ (err stale, after history))
    × (((old : Blob) → get (after history) place ≡ some old → old.version ≤ 4)
        → ((put (after history) place (blob 9 4)).0 ≡ ok tt)
          × ((j : RecordKey)
              → get (put (after history) place (blob 9 4)).1 j
                ≡ (if place == j then some (blob 9 4) else get (after history) j)))
put_lem_run = put_lem (after history) place (blob 9 4)

after-Reads_example : Reads (get (after history) place) place history
after-Reads_example = after-Reads history place

contains-list_run :
    contains (list (after history) (chars "acct") (chars "bookmarks")) (chars "1")
    ≡ is_some (get (after history) place)
contains-list_run = contains-list (after history) (chars "acct") (chars "bookmarks") (chars "1")

-- The same writes in another order, one of them twice.
abbrev other_history : List Op
other_history = put_op place (blob 2 4) ∷ put_op place (blob 3 6) ∷ put_op place (blob 2 4) ∷ []

abbrev one_history : List Op
one_history = put_op place (blob 3 6) ∷ put_op place (blob 2 4) ∷ []

no_conflict : ConflictFree place one_history
no_conflict b c (inl (e, p)) (inl (e', q)) same = p ∙ sym q
no_conflict b c (inl (e, p)) (inr (inl (e', q))) same = absurd (ground arith)
no_conflict b c (inr (inl (e, p))) (inl (e', q)) same = absurd (ground arith)
no_conflict b c (inr (inl (e, p))) (inr (inl (e', q))) same = p ∙ sym q
no_conflict b c (inr (inr w)) v same = absurd w
no_conflict b c w (inr (inr v)) same = absurd v

after-SameWrites_example : get (after one_history) place ≡ get (after other_history) place
after-SameWrites_example = after-SameWrites one_history other_history place no_conflict (λ b. (
  λ w. elim w [ inl x ↦ inr (inl x) | inr v ↦ elim v [ inl x ↦ inl x | inr z ↦ absurd z ] ],
  λ w. elim w [
    | inl x ↦ inr (inl x)
    | inr v ↦ elim v [ inl x ↦ inl x | inr u ↦ elim u [ inl x ↦ inr (inl x) | inr z ↦ absurd z ] ]
  ],
))

list-after_example :
    IsOnceEach (list (after history) (chars "acct") (chars "bookmarks"))
    × ((id : Str)
        → (contains (list (after history) (chars "acct") (chars "bookmarks")) id ≡ true)
          ↔ Written (key_of (chars "acct") (chars "bookmarks") id) history)
list-after_example = list-after history (chars "acct") (chars "bookmarks")
