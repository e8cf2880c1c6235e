-- ===== src/Terminal/Upload.antt =====
-- packages/web/src/components/TerminalView.tsx: `startImageTransfer`, the answers of the agent to it,
-- and the paste of an image.
use remote_ttys.Base.{
  ℕ, zero, suc, ◌+◌, ◌-◌, ◌*◌, ◌/◌, ◌%◌, min, String, Bool, true, false, not, ◌||◌, Option, none,
  some, List, [], ◌∷◌, ◌++◌, take, drop, length, has, eqb, ltb, ◌==◌, if◌then◌else◌,
}
use remote_ttys.Base.Texts.{truthy}
use remote_ttys.E2e.{AesGcm}
use remote_ttys.Terminal.{
  Base64, sending, waiting, complete, failed, UploadState, transfer_start, transfer_chunk,
  transfer_end, View, Job, seal_and_send, show_progress, show_waiting, update_upload,
}

abbrev pub chunk_size : ℕ
chunk_size = 32 * 1024

-- `Math.ceil(buffer.length / CHUNK_SIZE)`
unfoldable pub chunk_count : ℕ → ℕ
chunk_count size = (size + chunk_size - 1) / chunk_size

-- `buffer.slice(start, Math.min(start + CHUNK_SIZE, buffer.length))`
unfoldable pub chunk_at : ℕ → List ℕ → List ℕ
chunk_at i buffer =
    let start = i * chunk_size in
    take (min (start + chunk_size) (length buffer) - start) (drop start buffer)

-- A file that was pasted or dropped: its bytes, and what the code makes of them: the texts of the first
-- and the last message in UTF-8, and the text of the error where it is too large.
pub record ImageFile : Type 0 where
  pub name : String
  pub mime : String
  pub bytes : List ℕ
  pub opening : List ℕ
  pub closing : List ℕ
  pub too_large : String

unfoldable pub name_or : String → String
name_or name = if name == "" then "image.png" else name

module _ (gcm : AesGcm) (base64 : Base64) where
  -- The rest of the loop: `left` rounds from the round `i` on.
  unfoldable pub chunk_jobs : String → ℕ → ℕ → ℕ → List ℕ → List (Job gcm base64)
  chunk_jobs transfer zero i total buffer = []
  chunk_jobs transfer (suc left) i total buffer =
      let rest = chunk_jobs transfer left (i + 1) total buffer in
      let job = seal_and_send (chunk_at i buffer) (transfer_chunk transfer i) in
      if eqb ((i + 1) % 5) 0 || eqb (i + 1) total
      then job ∷ show_progress transfer (i + 1) ∷ rest
      else job ∷ rest

  -- What the transfer of a file chains to the queue.
  unfoldable pub transfer_jobs : String → ImageFile → List (Job gcm base64)
  transfer_jobs transfer file =
      let total = chunk_count (length file.bytes) in
      seal_and_send file.opening (transfer_start transfer)
      ∷ (chunk_jobs transfer total 0 total file.bytes
          ++ seal_and_send file.closing (transfer_end transfer) ∷ show_waiting transfer ∷ [])

  -- The state and the jobs at the start of a transfer; `types` and `max_size` are the settings.
  unfoldable pub start_image_transfer :
      List String
      → ℕ
      → String
      → ImageFile
      → View gcm base64
      → View gcm base64 × List (Job gcm base64)
  start_image_transfer types max_size transfer file view = elim view.e2e [
    | none ↦ (view, [])
    | some s ↦
        if not (has file.mime types)
        then (view, [])
        else if ltb max_size (length file.bytes)
        then (
          record view {
            upload = some (record {
              transfer_id = "";
              file_name = file.name;
              total_size = length file.bytes;
              total_chunks = 0;
              chunks_sent = 0;
              status = failed;
              error = some file.too_large;
              file_path = none;
            });
          },
          [],
        )
        else (
          record view {
            upload = some (record {
              transfer_id = transfer;
              file_name = name_or file.name;
              total_size = length file.bytes;
              total_chunks = chunk_count (length file.bytes);
              chunks_sent = 0;
              status = sending;
              error = none;
              file_path = none;
            });
          },
          transfer_jobs transfer file,
        )
  ]

  -- A paste starts nothing while a transfer runs or its success is shown.
  abbrev pub is_busy : Option UploadState → Bool
  is_busy none = false
  is_busy (some u) = elim u.status [
    | sending ↦ true
    | waiting ↦ true
    | complete ↦ true
    | failed ↦ false
  ]

  unfoldable pub handle_image_paste :
      List String
      → ℕ
      → String
      → Option ImageFile
      → View gcm base64
      → View gcm base64 × List (Job gcm base64)
  handle_image_paste types max_size transfer file view =
      if is_busy view.upload then (view, []) else elim file [
        | none ↦ (view, [])
        | some f ↦ start_image_transfer types max_size transfer f view
      ]

  -- `file.transfer.ack` and `file.transfer.complete`, once they are decrypted.
  unfoldable pub on_ack : String → Bool → Option String → View gcm base64 → View gcm base64
  on_ack transfer accepted error view =
      if accepted
      then view
      else update_upload gcm base64 transfer
          (λ u. record u {
            status = failed;
            error = elim (truthy error) [ some text ↦ some text | none ↦ some "Transfer rejected" ];
          })
          view

  unfoldable pub on_complete : String → Option String → View gcm base64 → View gcm base64
  on_complete transfer path view =
      update_upload gcm base64 transfer (λ u. record u { status = complete; file_path = path }) view
