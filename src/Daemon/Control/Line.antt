-- ===== src/Daemon/Control/Line.antt =====
-- src/control/mod.rs: a connection to the control server, from the bytes that arrive to the answer. The JSON of a request is another crate's: `parse_request` is `serde_json::from_str`.
use remote_au.Common.{
  ℕ, ◌+◌, ◌≡◌, ◌⊎◌, refl, inl, inr, Bool, false, not, ◌||◌, Option, none, some, List, [], ◌∷◌, ◌++◌,
  take, length, ltb, ◌==◌, bytes_eq, bytes_eq→eq, if◌then◌else◌, Bool-cases,
}
use remote_au.Common.Text.{codes}
use remote_au.Common.Utf8.{from_utf8}
use remote_au.Crypto.Session.{Crates}
use remote_au.Daemon.Control.{Json, ControlRequest, ControlResponse, failed, max_control_bytes}
use remote_au.Mixer.Streams.{GainFloat}

-- `read_line`: the bytes up to a newline, it included, or all of them.
unfoldable pub read_line : List ℕ → List ℕ
read_line [] = []
read_line (b ∷ bs) = let rest = read_line bs in if b == 10 then b ∷ [] else b ∷ rest

ends_with_newline : List ℕ → Bool
ends_with_newline [] = false
ends_with_newline (b ∷ []) = b == 10
ends_with_newline (b ∷ c ∷ bs) = ends_with_newline (c ∷ bs)

module _ (crates : Crates) (hex_encode : List ℕ → List ℕ) where
  pub derive_control_token : List ℕ → List ℕ
  derive_control_token invitation =
      hex_encode (take 32 (crates.blake2b512 (codes "remote-au-local-control-v2" ++ invitation)))

module _ (g : GainFloat) (js : Json g) (parse_request : List ℕ → Option (ControlRequest g js)) where
  -- The same tokens.
  pub authorized : List ℕ → List ℕ → Bool
  authorized a b = bytes_eq a b

  -- The answer to a request that is no request, or is not authorized.
  unauthorized : ControlResponse g js
  unauthorized = failed g js (codes "unauthorized or malformed request")

  module _ {S : Type 0} (handler : S → ControlRequest g js → S × ControlResponse g js) where
    answer : S → List ℕ → Option (ControlRequest g js) → S × ControlResponse g js
    answer s expected none = (s, unauthorized)
    answer s expected (some req) =
        if authorized req.token expected then handler s req else (s, unauthorized)

    answer_text : S → List ℕ → List ℕ → S × Option (ControlResponse g js)
    answer_text s expected line = elim (from_utf8 line) [
      | none ↦ (s, none)
      | some text ↦ (let (s', resp) = answer s expected (parse_request line) in (s', some resp))
    ]

    -- What the task of a connection does with the bytes that it reads; no answer is sent to a line
    -- that is too long, not ended, or no UTF-8.
    pub serve : S → List ℕ → List ℕ → S × Option (ControlResponse g js)
    serve s expected bytes =
        let line = read_line (take (max_control_bytes + 1) bytes) in
        if ltb max_control_bytes (length line) || not (ends_with_newline line)
        then (s, none)
        else answer_text s expected line

    -- A request that changes the state of the daemon carries the token of its invitation: whatever bytes arrive, either the state is as before, or the line parses to a request with that very token and the state is the handler's.
    pub serve-authorized :
        (s : S) (expected bytes : List ℕ)
        → let line = read_line (take (max_control_bytes + 1) bytes) in
          ((serve s expected bytes).0 ≡ s)
          ⊎ ((req : ControlRequest g js) × (parse_request line ≡ some req)
              × (req.token ≡ expected)
              × ((serve s expected bytes).0 ≡ (handler s req).0)
              × ((serve s expected bytes).1 ≡ some (handler s req).1))
    unfolding serve answer_text answer authorized
    serve-authorized s expected bytes =
        let line = read_line (take (max_control_bytes + 1) bytes) in
        elim (Bool-cases (ltb max_control_bytes (length line) || not (ends_with_newline line))) [
          | inl bad ↦ simp bad (inl refl)
          | inr good ↦ simp good (by_text (from_utf8 line) (parse_request line) refl)
        ]
      where
        by_text :
            (t : Option (List ℕ)) (o : Option (ControlRequest g js))
            → parse_request (read_line (take (max_control_bytes + 1) bytes)) ≡ o
            → let out : S × Option (ControlResponse g js) = elim t [
              | none ↦ (s, none)
              | some text ↦ (let (s', resp) = answer s expected o in (s', some resp))
            ] in
              (out.0 ≡ s)
              ⊎ ((req : ControlRequest g js) × (parse_request
                      (read_line (take (max_control_bytes + 1) bytes))
                    ≡ some req)
                  × (req.token ≡ expected)
                  × (out.0 ≡ (handler s req).0)
                  × (out.1 ≡ some (handler s req).1))
        by_text none o is = inl refl
        by_text (some text) none is = inl refl
        by_text (some text) (some req) is = elim (Bool-cases (bytes_eq req.token expected)) [
          | inr other ↦ simp other (inl refl)
          | inl same ↦ simp same (inr (req, is, bytes_eq→eq req.token expected same, refl, refl))
        ]
