-- ===== src/Policy/Audit/Hash.antt =====
-- The hash of an entry of which one byte is changed.
use b_browser.Prelude.{ℕ, ◌<◌, ◌≢◌, List, ◌∷◌, ◌++◌, arith}
use b_browser.Prelude.Fnv.{fnv_offset, fnv_from_differ, AreBytes}
use b_browser.Policy.Audit.{hash_bytes}

-- To change one byte of an entry, at any place, always changes its hash.
pub hash_bytes_differ :
    (before after : List ℕ) (x y : ℕ)
    → x < 256
    → y < 256
    → AreBytes after
    → x ≢ y
    → hash_bytes (before ++ x ∷ after) ≢ hash_bytes (before ++ y ∷ after)
unfolding hash_bytes
hash_bytes_differ before after x y px py v ne e =
    ne (fnv_from_differ fnv_offset before after x y (omega arith) px py v e)
