-- ===== src/Policy/Audit/Tests.antt =====
-- The unit tests of audit.rs, and the theorems at concrete inputs.
use b_browser.Prelude.{List, Str, [], arith, chars, refl, some, ℕ, ◌∷◌, ◌≡◌, ◌≢◌, ◌⊎◌}
use b_browser.Policy.Audit.{new, append, root, len, hash_bytes}
use b_browser.Policy.Audit.Hash.{hash_bytes_differ}
use b_browser.Policy.Audit.Root.{root_total}
use b_browser.Policy.Audit.Tamper.{append_all, RootCollision, EntryCollision, tamper_evident}
use b_browser.Policy.Audit.Duplicate.{root-append_again}

abbrev three : List Str
three = chars "one" ∷ chars "two" ∷ chars "three" ∷ []

empty_root : root new ≡ some 0
unfolding root new
empty_root = refl

three_entries : len (append_all new three) ≡ 3
unfolding len append_all append new
three_entries = refl

root_total_example : (r : ℕ) × (root (append_all new three) ≡ some r)
root_total_example = root_total (append_all new three)

hash_bytes_differ_run : hash_bytes (chars "one") ≢ hash_bytes (chars "ope")
hash_bytes_differ_run =
    hash_bytes_differ (chars "o") (chars "e") b'n' b'p' (omega arith) (omega arith) (omega arith)
      (λ e. omega arith)

tamper_evident_example : (three ≡ three) ⊎ (RootCollision three three ⊎ EntryCollision three three)
tamper_evident_example = tamper_evident three three refl refl

root-append_again_example :
    root (append_all new (chars "one" ∷ chars "two" ∷ chars "three" ∷ chars "three" ∷ []))
    ≡ root (append_all new three)
root-append_again_example = root-append_again (chars "one") (chars "two") [] (chars "three") refl
