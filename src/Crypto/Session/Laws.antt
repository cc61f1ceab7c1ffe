-- ===== src/Crypto/Session/Laws.antt =====
-- What a direction seals, it opens.
use remote_au.Common.{
  ℕ, ◌+◌, ◌≤◌, ◌<◌, ◌≡◌, refl, ◌∙◌, inr, true, false, List, length, length-take, bytes_eq_refl,
  ◌==◌, arith,
}
use remote_au.Crypto.Session.{
  Crates, Documented, CipherDir, nonce, seal, open_ciphertext, mac16, mac_eq,
}

pub mac_eq_refl : (m : List ℕ) → mac_eq m m ≡ true
unfolding mac_eq
mac_eq_refl = bytes_eq_refl

module _ (crates : Crates) (documented : Documented crates) where
  -- Under a nonzero counter a direction seals a message of at most 65536 bytes into a ciphertext 16 bytes longer, which the same counter and associated data open to the message.
  pub open_ciphertext-seal :
      (dir : CipherDir) (counter : ℕ) (aad m : List ℕ)
      → 0 < counter
      → length m ≤ 65536
      → (c : List ℕ) × (seal crates dir counter aad m ≡ inr c)
        × (length c ≡ length m + 16)
        × (open_ciphertext crates dir counter aad c ≡ inr m)
  unfolding seal open_ciphertext
  open_ciphertext-seal dir counter aad m h0 h1 =
      let (c, e, n) = documented.seals dir.key (nonce crates dir counter) aad m h1 in
      let d = documented.opens _ _ _ _ _ e in (c, rw (nonzero, e) refl, n, rw (nonzero, d) refl)
    where
      nonzero : (counter == 0) ≡ false
      nonzero = ground arith

  pub length-mac16 : (key m : List ℕ) → length (mac16 crates key m) ≡ 16
  unfolding mac16
  length-mac16 key m = length-take 16 _ ∙ rw (documented.digest _) refl
