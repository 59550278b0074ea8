-- ===== src/Sync/E2ee/Tests.antt =====
-- The unit tests of sync/e2ee/src/lib.rs, and the theorems at concrete inputs.
use b_browser.Prelude.Eq.{◌==◌}
use b_browser.Prelude.{text_eq, List, [], arith, chars, false, length, refl, ℕ, ◌%◌, ◌+◌, ◌∷◌, ◌≡◌}
use b_browser.Prelude.Fnv.{AreBytes, fnv_from}
use b_browser.Sync.E2ee.{fnv_from, UserKey, derive, keystream, seal, open_record}
use b_browser.Sync.E2ee.Sealing.{open-seal, seal-AreBytes}
use b_browser.Sync.E2ee.Keystream.{state, keystream_periodic, open-seal_other}

abbrev nonce : List ℕ
nonce = 7 ∷ 7 ∷ 7 ∷ []

key_a : UserKey
unfolding derive
key_a = derive (chars "pass-a") (chars "salt")

key_b : UserKey
unfolding derive
key_b = derive (chars "pass-b") (chars "salt")

wrong_key : (open_record key_b (seal key_a nonce (chars "secret")) == chars "secret") ≡ false
unfolding open_record seal key_a key_b
wrong_key = refl

open-seal_run : open_record key_a (seal key_a nonce (chars "my bookmarks")) ≡ chars "my bookmarks"
open-seal_run = open-seal key_a nonce (chars "my bookmarks")

seal-AreBytes_run :
    ((seal key_a nonce (chars "x")).nonce ≡ nonce)
    × AreBytes (seal key_a nonce (chars "x")).ciphertext
    × (length (seal key_a nonce (chars "x")).ciphertext ≡ 1)
seal-AreBytes_run = seal-AreBytes key_a nonce (chars "x") (omega arith)

keystream_periodic_run : keystream key_a nonce (3 + 256) ≡ keystream key_a nonce 3
keystream_periodic_run = keystream_periodic key_a nonce 3

abbrev short_key : UserKey
short_key = record { bytes = 1 ∷ 2 ∷ [] }

abbrev other_key : UserKey
other_key = record { bytes = 0 ∷ 125 ∷ [] }

same_low_state : state short_key nonce % 256 ≡ state other_key nonce % 256
unfolding fnv_from
same_low_state = refl

open-seal_other_run : open_record other_key (seal short_key nonce (chars "secret")) ≡ chars "secret"
open-seal_other_run = open-seal_other short_key other_key nonce (chars "secret") same_low_state
