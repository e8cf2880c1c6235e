-- ===== src/ServerKey/Restart.antt =====
-- The key survives a restart: what a reset publishes is what the next start publishes and signs with.
use remote_ttys.Base.{String, true, none, ◌≡◌, inl, inr, Option-cases, arith}
use remote_ttys.ServerKey.{
  PrivateKey, KeyCrypto, KeyState, raw_public_key, publish, store_key, init_server_key,
  reset_server_key, sign_challenge, get_server_public_key,
}

-- What a new process has: the file alone.
abbrev pub restarted : KeyState → KeyState
restarted s = record { private_key = none; public_key = ""; file = s.file }

module _ (crypto : KeyCrypto) (fresh other : PrivateKey) (s : KeyState) where
  -- After a reset that returns, a restart publishes the same key and gives every challenge the same
  -- signature, whatever key the new process could generate.
  pub init_server_key-reset_server_key :
      (reset_server_key crypto fresh s).0 ≡ true
      → let after = (reset_server_key crypto fresh s).1 in
        let again = init_server_key crypto other (restarted after) in
        (again.0 ≡ true)
        × (get_server_public_key again.1 ≡ get_server_public_key after)
        × ((text : String) → sign_challenge crypto text again.1 ≡ sign_challenge crypto text after)
  unfolding reset_server_key init_server_key publish store_key get_server_public_key sign_challenge
  init_server_key-reset_server_key done = elim (Option-cases (raw_public_key crypto fresh)) [
    | inl bad ↦ absurd (ground arith)
    | inr (public, good) ↦ (ground arith, ground arith, λ text. ground arith)
  ]
