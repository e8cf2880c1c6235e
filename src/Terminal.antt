-- ===== src/Terminal.antt =====
-- packages/web/src/components/TerminalView.tsx: the end-to-end session of a terminal, its two queues,
-- and the upload of an image. The state is what the component keeps in its refs and its state; the
-- terminal itself, the DOM and base64 are parameters or left out.
pub mod KeyExchange
pub mod Mouse
pub mod Upload
pub mod Chunks
pub mod Delivery
pub mod Tests
use remote_ttys.Base.{
  ℕ, ◌+◌, String, Bool, true, false, Option, none, some, List, [], ◌∷◌, ◌++◌, eqb, ◌==◌, ◌≡◌,
  if◌then◌else◌,
}
use remote_ttys.E2e.{AesGcm, direction_b2a, direction_a2b, encrypt, decrypt}

-- `uint8ToBase64` and `base64ToUint8`, of which the first is undone by the second; `none` is a throw.
pub record Base64 : Type 0 where
  pub encode : List ℕ → String
  pub decode : String → Option (List ℕ)
  pub decode-encode : (bytes : List ℕ) → decode (encode bytes) ≡ some bytes

pub data UploadStatus : Type 0 where
  sending waiting complete failed : UploadStatus

pub record UploadState : Type 0 where
  pub transfer_id : String
  pub file_name : String
  pub total_size : ℕ
  pub total_chunks : ℕ
  pub chunks_sent : ℕ
  pub status : UploadStatus
  pub error : Option String
  pub file_path : Option String

-- What goes out with a sealed payload; the agent's and the session's ids are the component's own.
pub data Outgoing : Type 0 where
  pty_data : Outgoing
  transfer_start : (transfer : String) → Outgoing
  transfer_chunk : (transfer : String) (index : ℕ) → Outgoing
  transfer_end : (transfer : String) → Outgoing

module _ (gcm : AesGcm) (base64 : Base64) where
  open gcm use {Key}

  pub record E2eSession : Type 0 where
    pub key_b2a : Key
    pub key_a2b : Key
    pub send_counter : ℕ
    pub recv_counter : ℕ

  -- `e2eRef`, the state of the upload, and the messages that `send` was given, in their order.
  pub record View : Type 0 where
    pub e2e : Option E2eSession
    pub upload : Option UploadState
    pub sent : List (Outgoing × String)

  -- What is chained to `sendQueue`: a sealed message, or an update of the upload's state.
  pub data Job : Type 0 where
    seal_and_send : (plain : List ℕ) → Outgoing → Job
    show_progress : (transfer : String) (sent : ℕ) → Job
    show_waiting : (transfer : String) → Job

  -- `encryptAndEncode` within `queueEncryptedSend`; without a session the message is dropped.
  unfoldable pub send_sealed : List ℕ → Outgoing → View → View
  send_sealed plain msg view = elim view.e2e [
    | none ↦ view
    | some s ↦
        let payload = base64.encode (encrypt gcm s.key_b2a plain direction_b2a s.send_counter) in
        record view {
          e2e = some (record s { send_counter = s.send_counter + 1 });
          sent = view.sent ++ (msg, payload) ∷ [];
        }
  ]

  -- `setUploadState(prev => prev?.transferId === transferId ? change(prev) : prev)`
  unfoldable pub update_upload : String → (UploadState → UploadState) → View → View
  update_upload transfer change view = elim view.upload [
    | none ↦ view
    | some u ↦ if u.transfer_id == transfer then record view { upload = some (change u) } else view
  ]

  unfoldable pub run_job : Job → View → View
  run_job (seal_and_send plain msg) view = send_sealed plain msg view
  run_job (show_progress transfer sent) view =
      update_upload transfer (λ u. record u { chunks_sent = sent }) view
  run_job (show_waiting transfer) view =
      update_upload transfer (λ u. record u { status = waiting }) view

  -- A job is begun once the one before it is done.
  unfoldable pub run_jobs : List Job → View → View
  run_jobs [] view = view
  run_jobs (job ∷ jobs) view = run_jobs jobs (run_job job view)

  -- `decryptPayload`: `none` is a rejected promise; the counter moves on success only.
  unfoldable pub decrypt_payload : String → View → Option (List ℕ) × View
  decrypt_payload payload view = elim view.e2e [
    | none ↦ (none, view)
    | some s ↦ elim (base64.decode payload) [
      | none ↦ (none, view)
      | some bytes ↦ elim (decrypt gcm s.key_a2b bytes direction_a2b s.recv_counter) [
        | none ↦ (none, view)
        | some plain ↦ (
          some plain,
          record view { e2e = some (record s { recv_counter = s.recv_counter + 1 }) },
        )
      ]
    ]
  ]

  -- `recvQueue`: the payloads in the order in which they came, each with what its promise gives.
  unfoldable pub decrypt_all : List String → View → List (Option (List ℕ)) × View
  decrypt_all [] view = ([], view)
  decrypt_all (payload ∷ payloads) view =
      let (plain, view') = decrypt_payload payload view in
      let (plains, last) = decrypt_all payloads view' in (plain ∷ plains, last)
