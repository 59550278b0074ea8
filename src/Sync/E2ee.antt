-- ===== src/Sync/E2ee.antt =====
-- sync/e2ee/src/lib.rs: keys and sealing with the documented stand-in cipher. Bytes are numbers
-- below 256.
pub mod Sealing
pub mod Keystream
mod Tests
use b_browser.Prelude.{List, Str, [], suc, zero, ℕ, ◌%◌, ◌++◌, ◌+◌, ◌∷◌}
use Prim.Native.Nat.{bit_xor}
use b_browser.Prelude.Text.{utf8}
use b_browser.Prelude.Fnv.{fnv_offset, fnv_step, fnv_from}

pub record UserKey : Type 0 where
  -- 32 bytes
  pub bytes : List ℕ

-- The bytes from index `i` on; `n` are left.
abbrev derive_from : ℕ → ℕ → List ℕ → List ℕ
derive_from i zero text = []
derive_from i (suc n) text = fnv_from (bit_xor fnv_offset i) text % 256 ∷ derive_from (i + 1) n text

unfoldable pub derive : Str → List ℕ → UserKey
unfolding fnv_from utf8
derive passphrase salt = record { bytes = derive_from 0 32 (utf8 passphrase ++ salt) }

pub record SealedRecord : Type 0 where
  -- 24 bytes
  pub nonce : List ℕ
  pub ciphertext : List ℕ

-- The keystream byte at index `i`.
unfoldable pub keystream : UserKey → List ℕ → ℕ → ℕ
unfolding fnv_from
keystream key nonce i = fnv_step (fnv_from fnv_offset (key.bytes ++ nonce)) i % 256

-- The loop over the bytes, from index `i` on.
unfoldable pub xor_from : UserKey → List ℕ → ℕ → List ℕ → List ℕ
xor_from key nonce i [] = []
xor_from key nonce i (byte ∷ rest) =
    bit_xor byte (keystream key nonce i) ∷ xor_from key nonce (i + 1) rest

unfoldable pub keystream_xor : UserKey → List ℕ → List ℕ → List ℕ
unfolding xor_from keystream
keystream_xor key nonce input = xor_from key nonce 0 input

unfoldable pub seal : UserKey → List ℕ → List ℕ → SealedRecord
unfolding keystream_xor
seal key nonce plaintext = record { nonce = nonce; ciphertext = keystream_xor key nonce plaintext }

-- `open` is a reserved word.
unfoldable pub open_record : UserKey → SealedRecord → List ℕ
unfolding keystream_xor
open_record key r = keystream_xor key r.nonce r.ciphertext
