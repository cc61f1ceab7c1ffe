-- ===== src/Crypto/Session/Tests.antt =====
-- Concrete crates that meet their documentation, and the cipher on them.
use remote_au.Common.{
  ℕ, ◌-◌, ◌≡◌, refl, ap, sym, ◌∙◌, inr, some, List, [], ◌∷◌, ◌++◌, length, take, replicate,
  length-append, length-replicate, take_append_of, arith,
}
use remote_au.Crypto.Session.{
  Crates, Documented, CipherDir, parse_invitation, trim, trim_start, trim_end, is_empty,
}

abbrev pub tag : List ℕ
tag = replicate 16 0

-- The tag is constant, a digest too, and a token its own decoding.
abbrev pub toy : Crates
toy = record {
  blake2b512 = λ m. replicate 64 0;
  encrypt = λ key nonce aad m. some (m ++ tag);
  decrypt = λ key nonce aad c. some (take (length c - 16) c);
  hex_decode = λ t. some t;
}

toy_opens : (m c : List ℕ) → some (m ++ tag) ≡ some c → toy.decrypt [] [] [] c ≡ some m
toy_opens m c e =
    let same : m ++ tag ≡ c = cc in
    let size : length (m ++ tag) - 16 ≡ length m = omega (arith, length-append m tag) in
    ap (λ d. toy.decrypt [] [] [] d) (sym same)
    ∙ ap (λ (n : ℕ). some (take n (m ++ tag))) size
    ∙ ap some (take_append_of (length m) m tag refl)

pub toy-Documented : Documented toy
toy-Documented = record {
  digest = λ m. length-replicate {A = ℕ} 64 0;
  seals = λ key nonce aad m h. (m ++ tag, refl, length-append m tag);
  opens = λ key nonce aad m c e. toy_opens m c e;
}

abbrev pub direction : CipherDir
direction = record { key = replicate 32 7; nonce_prefix = 1 ∷ 2 ∷ 3 ∷ 4 ∷ [] }

abbrev message : List ℕ
message = 10 ∷ 20 ∷ 30 ∷ []

abbrev pub token : List ℕ
token = replicate 32 b'7'

pub token-parsed : parse_invitation toy token ≡ inr token
unfolding parse_invitation trim trim_start trim_end is_empty
token-parsed = refl
