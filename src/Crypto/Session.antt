-- ===== src/Crypto/Session.antt =====
-- src/crypto/session.rs: the invitation, the key schedule, the cipher of a direction and the keyed hash of discovery. The hash, the AEAD and the hex decoder are other crates'.
pub mod Laws
pub mod Tests
use remote_au.Common.{
  ℕ, ◌+◌, ◌-◌, ◌*◌, ◌%◌, ◌^◌, ◌≤◌, ◌≡◌, ◌⊎◌, inl, inr, Bool, true, false, ◌||◌, ◌&&◌, not, Option,
  none, some, List, [], ◌∷◌, ◌++◌, length, take, bytes_eq, leb, ◌==◌, if◌then◌else◌,
}
use remote_au.Common.Bytes.{to_be}

abbrev pub token_bytes : ℕ
token_bytes = 32

pub data CryptoError : Type 0 where
  invalid_token decrypt_failed replay io : CryptoError

-- What the source takes from the crates blake2, chacha20poly1305 and hex: `Blake2b512` of a message,
-- `encrypt` and `decrypt` of a key, a nonce, the associated data and a text, and `hex::decode`.
pub record Crates : Type 0 where
  pub blake2b512 : List ℕ → List ℕ
  pub encrypt : List ℕ → List ℕ → List ℕ → List ℕ → Option (List ℕ)
  pub decrypt : List ℕ → List ℕ → List ℕ → List ℕ → Option (List ℕ)
  pub hex_decode : List ℕ → Option (List ℕ)

-- What their documentation promises: digests of 64 bytes; a short message is sealed, with a tag of 16 bytes, and what was sealed opens to it.
pub record Documented (crates : Crates) : Type 0 where
  pub digest : (m : List ℕ) → length (crates.blake2b512 m) ≡ 64
  pub seals :
      (key nonce aad m : List ℕ)
      → length m ≤ 65536
      → (c : List ℕ) × (crates.encrypt key nonce aad m ≡ some c) × (length c ≡ length m + 16)
  pub opens :
      (key nonce aad m c : List ℕ)
      → crates.encrypt key nonce aad m ≡ some c
      → crates.decrypt key nonce aad c ≡ some m

-- `char::is_whitespace`.
abbrev pub is_whitespace : ℕ → Bool
is_whitespace c =
    leb 9 c && leb c 13
    || c == 32
    || c == 133
    || c == 160
    || c == 5760
    || leb 8192 c && leb c 8202
    || c == 8232
    || c == 8233
    || c == 8239
    || c == 8287
    || c == 12288

trim_start : List ℕ → List ℕ
trim_start [] = []
trim_start (c ∷ cs) = let rest = trim_start cs in if is_whitespace c then rest else c ∷ cs

is_empty : List ℕ → Bool
is_empty [] = true
is_empty (_ ∷ _) = false

trim_end : List ℕ → List ℕ
trim_end [] = []
trim_end (c ∷ cs) =
    let rest = trim_end cs in if is_whitespace c && is_empty rest then [] else c ∷ rest

-- `str::trim`.
trim : List ℕ → List ℕ
trim s = trim_end (trim_start s)

-- `map_err` of an `Option`, and `Result::ok`.
abbrev pub ok_or {ℓ} : {A : Type ℓ} → CryptoError → Option A → CryptoError ⊎ A
ok_or e none = inl e
ok_or e (some x) = inr x

abbrev pub ok {ℓ ℓ'} : {E : Type ℓ} {A : Type ℓ'} → E ⊎ A → Option A
ok (inl e) = none
ok (inr x) = some x

pub record CipherDir : Type 0 where
  pub key : List ℕ
  pub nonce_prefix : List ℕ

pub record DirectionKeys : Type 0 where
  pub sender_to_receiver : CipherDir
  pub receiver_to_sender : CipherDir

module _ (crates : Crates) where
  pub parse_invitation : List ℕ → CryptoError ⊎ List ℕ
  parse_invitation token = elim (crates.hex_decode (trim token)) [
    | none ↦ inl invalid_token
    | some bytes ↦ if length bytes == token_bytes then inr bytes else inl invalid_token
  ]

  pub derive32 : List ℕ → List ℕ → List ℕ → List ℕ → List ℕ
  derive32 label token epoch session =
      take 32 (crates.blake2b512 (label ++ (token ++ (epoch ++ session))))

  pub prefix : List ℕ → List ℕ → List ℕ
  prefix label key = take 4 (crates.blake2b512 (label ++ key))

  -- `CipherDir::new`.
  pub cipher_dir : List ℕ → List ℕ → CipherDir
  cipher_dir key label = record { key = key; nonce_prefix = prefix label key }

  abbrev pub nonce : CipherDir → ℕ → List ℕ
  nonce dir counter = dir.nonce_prefix ++ to_be 8 counter

  pub seal : CipherDir → ℕ → List ℕ → List ℕ → CryptoError ⊎ List ℕ
  seal dir counter aad plaintext =
      if counter == 0
      then inl decrypt_failed
      else ok_or decrypt_failed (crates.encrypt dir.key (nonce dir counter) aad plaintext)

  unfoldable pub open_ciphertext : CipherDir → ℕ → List ℕ → List ℕ → CryptoError ⊎ List ℕ
  open_ciphertext dir counter aad ciphertext =
      if counter == 0
      then inl decrypt_failed
      else ok_or decrypt_failed (crates.decrypt dir.key (nonce dir counter) aad ciphertext)

  -- `DirectionKeys::derive`.
  pub derive : List ℕ → List ℕ → List ℕ → DirectionKeys
  derive token epoch session = record {
    sender_to_receiver =
        cipher_dir
          (derive32
            (b'r' ∷ b'e' ∷ b'm' ∷ b'o' ∷ b't' ∷ b'e' ∷ b'-' ∷ b'a' ∷ b'u' ∷ b'-' ∷ b's' ∷ b'2'
              ∷ b'r' ∷ b'-' ∷ b'v' ∷ b'2' ∷ [])
            token epoch session)
          (b'r' ∷ b'e' ∷ b'm' ∷ b'o' ∷ b't' ∷ b'e' ∷ b'-' ∷ b'a' ∷ b'u' ∷ b'-' ∷ b'n' ∷ b'o' ∷ b'n'
            ∷ b'c' ∷ b'e' ∷ b'-' ∷ b's' ∷ b'2' ∷ b'r' ∷ b'-' ∷ b'v' ∷ b'2' ∷ []);
    receiver_to_sender =
        cipher_dir
          (derive32
            (b'r' ∷ b'e' ∷ b'm' ∷ b'o' ∷ b't' ∷ b'e' ∷ b'-' ∷ b'a' ∷ b'u' ∷ b'-' ∷ b'r' ∷ b'2'
              ∷ b's' ∷ b'-' ∷ b'v' ∷ b'2' ∷ [])
            token epoch session)
          (b'r' ∷ b'e' ∷ b'm' ∷ b'o' ∷ b't' ∷ b'e' ∷ b'-' ∷ b'a' ∷ b'u' ∷ b'-' ∷ b'n' ∷ b'o' ∷ b'n'
            ∷ b'c' ∷ b'e' ∷ b'-' ∷ b'r' ∷ b'2' ∷ b's' ∷ b'-' ∷ b'v' ∷ b'2' ∷ []);
  }

  pub discovery_key : List ℕ → List ℕ
  discovery_key token = take 32 (
      crates.blake2b512 (
        (b'r' ∷ b'e' ∷ b'm' ∷ b'o' ∷ b't' ∷ b'e' ∷ b'-' ∷ b'a' ∷ b'u' ∷ b'-' ∷ b'd' ∷ b'i' ∷ b's'
          ∷ b'c' ∷ b'o' ∷ b'v' ∷ b'e' ∷ b'r' ∷ b'y' ∷ b'-' ∷ b'v' ∷ b'2' ∷ [])
        ++ token))

  pub mac16 : List ℕ → List ℕ → List ℕ
  mac16 key message = take 16 (
      crates.blake2b512 (
        (b'r' ∷ b'e' ∷ b'm' ∷ b'o' ∷ b't' ∷ b'e' ∷ b'-' ∷ b'a' ∷ b'u' ∷ b'-' ∷ b'm' ∷ b'a' ∷ b'c'
          ∷ b'-' ∷ b'v' ∷ b'2' ∷ [])
        ++ (to_be 4 (length key % 2 ^ 32)
            ++ (key ++ (to_be 8 (length message % 2 ^ 64) ++ message)))))

-- `ct_eq` of two arrays.
pub mac_eq : List ℕ → List ℕ → Bool
mac_eq a b = bytes_eq a b
