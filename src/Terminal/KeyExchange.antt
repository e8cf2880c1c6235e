-- ===== src/Terminal/KeyExchange.antt =====
-- packages/web/src/components/TerminalView.tsx: the key exchange of a new session. The Web Crypto API
-- is a parameter: `none` is an exception, which the component reports.
use remote_ttys.Base.{ℕ, String, Bool, true, false, Option, none, some, List, ◌≡◌, if◌then◌else◌}
use remote_ttys.Base.Texts.{truthy}
use remote_ttys.E2e.{AesGcm, sign_data, salt_input}
use remote_ttys.Terminal.{Base64, E2eSession}

-- `verify`: the identity key, the data and the signature. `derive`: the private key, the agent's public
-- key and the text of the salt give the keys of the two directions.
pub record Exchange (Key : Type 0) : Type 1 where
  pub Private : Type 0
  pub utf8 : String → List ℕ
  pub verify : List ℕ → List ℕ → List ℕ → Option Bool
  pub derive : Private → List ℕ → List ℕ → Option (Key × Key)

-- The props that the exchange reads: the key pair with its public half.
pub record KeyProps (Private : Type 0) : Type 0 where
  pub session_id : String
  pub is_existing : Bool
  pub identity_key : Option String
  pub key_pair : Option (Private × List ℕ)
  pub agent_public_key : Option String
  pub agent_signature : Option String

-- `skipped` where a prop is missing; `refused` and `broken` write a warning to the terminal.
pub data Outcome (S : Type 0) : Type 0 where
  skipped : Outcome S
  refused : Outcome S
  broken : Outcome S
  established : S → Outcome S

module _ (gcm : AesGcm) (base64 : Base64) (x : Exchange gcm.Key) where
  open x use {Private, utf8, verify, derive}

  -- What follows the verdict on the signature.
  unfoldable pub derive_session : Private → List ℕ → List ℕ → Bool → Outcome (E2eSession gcm base64)
  derive_session private browser_pub agent_pub valid =
      if valid
      then elim (derive private agent_pub (salt_input utf8 browser_pub agent_pub)) [
        | none ↦ broken
        | some (b2a, a2b) ↦
            established
              (record { key_b2a = b2a; key_a2b = a2b; send_counter = 0; recv_counter = 0 })
      ]
      else refused

  unfoldable pub check_signature :
      String → Private → List ℕ → List ℕ → List ℕ → List ℕ → Outcome (E2eSession gcm base64)
  check_signature session_id private browser_pub identity agent_pub signature =
      elim (verify identity (sign_data utf8 agent_pub browser_pub session_id) signature) [
        | none ↦ broken
        | some valid ↦ derive_session private browser_pub agent_pub valid
      ]

  unfoldable pub decode_and_check :
      String → Private → List ℕ → String → String → String → Outcome (E2eSession gcm base64)
  decode_and_check session_id private browser_pub identity agent_key signature =
      elim (base64.decode agent_key) [
        | none ↦ broken
        | some agent_pub ↦ elim (base64.decode signature) [
          | none ↦ broken
          | some sig ↦ elim (base64.decode identity) [
            | none ↦ broken
            | some id ↦ check_signature session_id private browser_pub id agent_pub sig
          ]
        ]
      ]

  unfoldable pub exchange_keys : KeyProps Private → Outcome (E2eSession gcm base64)
  exchange_keys p = if p.is_existing then skipped else elim p.key_pair [
    | none ↦ skipped
    | some (private, browser_pub) ↦ elim (truthy p.identity_key) [
      | none ↦ skipped
      | some identity ↦ elim (truthy p.agent_public_key) [
        | none ↦ skipped
        | some agent_key ↦ elim (truthy p.agent_signature) [
          | none ↦ skipped
          | some signature ↦
              decode_and_check p.session_id private browser_pub identity agent_key signature
        ]
      ]
    ]
  ]

  -- What an established session rests on: the keys of the props decode, the signature over the
  -- transcript of the two public keys and the session is valid under the identity key, and the keys of
  -- the session are those derived.
  pub record IsVerified (p : KeyProps Private) (s : E2eSession gcm base64) : Type 0 where
    pub private : Private
    pub identity_text : String
    pub agent_text : String
    pub signature_text : String
    pub browser_pub : List ℕ
    pub identity : List ℕ
    pub agent_pub : List ℕ
    pub signature : List ℕ
    pub is_new : p.is_existing ≡ false
    pub has_pair : p.key_pair ≡ some (private, browser_pub)
    pub has_identity : p.identity_key ≡ some identity_text
    pub has_agent_key : p.agent_public_key ≡ some agent_text
    pub has_signature : p.agent_signature ≡ some signature_text
    pub identity_decodes : base64.decode identity_text ≡ some identity
    pub agent_decodes : base64.decode agent_text ≡ some agent_pub
    pub signature_decodes : base64.decode signature_text ≡ some signature
    pub verified :
        verify identity (sign_data utf8 agent_pub browser_pub p.session_id) signature ≡ some true
    pub derived :
        derive private agent_pub (salt_input utf8 browser_pub agent_pub)
        ≡ some (s.key_b2a, s.key_a2b)
    pub from_zero : (s.send_counter ≡ 0) × (s.recv_counter ≡ 0)
