-- ===== src/Sync/E2ee/Sealing.antt =====
-- Sealing and opening under one key.
use b_browser.Prelude.{List, [], ap, arith, length, refl, suc, ℕ, ◌+◌, ◌<◌, ◌∷◌, ◌≡◌}
use b_browser.Prelude.Bits.{xor_cancel, xor-lt}
use b_browser.Prelude.Fnv.{AreBytes}
use b_browser.Sync.E2ee.{UserKey, keystream, xor_from, seal, open_record}

module _ (key : UserKey) (nonce : List ℕ) where
  xor_from_twice :
      (i : ℕ) (bytes : List ℕ) → xor_from key nonce i (xor_from key nonce i bytes) ≡ bytes
  unfolding xor_from
  xor_from_twice i [] = refl
  xor_from_twice i (b ∷ rest) =
      cc (xor_cancel b (keystream key nonce i), xor_from_twice (i + 1) rest)

  keystream-lt : (i : ℕ) → keystream key nonce i < 256
  unfolding keystream
  keystream-lt i = omega arith

  xor_from-AreBytes :
      (i : ℕ) (bytes : List ℕ)
      → AreBytes bytes
      → AreBytes (xor_from key nonce i bytes) × (length (xor_from key nonce i bytes) ≡ length bytes)
  unfolding xor_from
  xor_from-AreBytes i [] v = (tt, refl)
  xor_from-AreBytes i (b ∷ rest) v =
      let (vs, n) = xor_from-AreBytes (i + 1) rest v.1 in
      ((xor-lt 8 b (keystream key nonce i) v.0 (keystream-lt i), vs), ap suc n)

  -- Round trip: a record sealed under a key and a nonce opens under that key to the plaintext.
  pub open-seal : (plaintext : List ℕ) → open_record key (seal key nonce plaintext) ≡ plaintext
  unfolding open_record seal
  open-seal plaintext = xor_from_twice 0 plaintext

  -- A sealed record bears its nonce, and as many bytes as the plaintext.
  pub seal-AreBytes :
      (plaintext : List ℕ)
      → AreBytes plaintext
      → ((seal key nonce plaintext).nonce ≡ nonce)
        × AreBytes (seal key nonce plaintext).ciphertext
        × (length (seal key nonce plaintext).ciphertext ≡ length plaintext)
  unfolding seal
  seal-AreBytes plaintext v = let (vs, n) = xor_from-AreBytes 0 plaintext v in (refl, vs, n)
