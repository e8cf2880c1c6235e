-- ===== src/Terminal/Delivery.antt =====
-- packages/web/src/components/TerminalView.tsx: what goes out sealed can be opened in turn, whatever is
-- queued between, and an uploaded image arrives whole.
use remote_ttys.Base.{
  ℕ, zero, suc, ◌+◌, ◌%◌, ◌||◌, eqb, String, Option, none, some, List, [], ◌∷◌, ◌++◌, length, ◌≡◌,
  refl, ap, subst, sym, ◌∙◌, inl, inr, Bool-cases, arith,
}
use mathlib.Core.List.{append_assoc, append-nil}
use remote_ttys.E2e.{AesGcm, direction_b2a, encrypt, decrypt}
use remote_ttys.E2e.Frames.{decrypt-encrypt}
use remote_ttys.Terminal.{
  Base64, UploadState, UploadStatus, Outgoing, E2eSession, View, Job, seal_and_send, show_progress,
  show_waiting, send_sealed, update_upload, run_job, run_jobs,
}
use remote_ttys.Terminal.Upload.{ImageFile, chunk_count, chunk_at, chunk_jobs, transfer_jobs}
use remote_ttys.Terminal.Chunks.{chunks_from, concat, chunks-concat}

-- The plaintexts of the jobs, and what the messages are.
abbrev pub plains : {gcm : AesGcm} {base64 : Base64} → List (Job gcm base64) → List (List ℕ)
plains [] = []
plains (seal_and_send plain msg ∷ jobs) = plain ∷ plains jobs
plains (show_progress transfer n ∷ jobs) = plains jobs
plains (show_waiting transfer ∷ jobs) = plains jobs

module _ (gcm : AesGcm) (base64 : Base64) where
  -- The other end: it opens each message with its counter, which moves on; `none` where one fails.
  unfoldable pub open_all : gcm.Key → ℕ → List (Outgoing × String) → Option (List (List ℕ))
  open_all key counter [] = some []
  open_all key counter ((msg, payload) ∷ rest) =
      let others = open_all key (counter + 1) rest in
      elim (base64.decode payload) [
        | none ↦ none
        | some bytes ↦ elim (decrypt gcm key bytes direction_b2a counter) [
          | none ↦ none
          | some plain ↦ elim others [ none ↦ none | some ps ↦ some (plain ∷ ps) ]
        ]
      ]

  -- What was sent opens to these plaintexts, from this counter on.
  abbrev pub Opens : gcm.Key → ℕ → List (Outgoing × String) → List (List ℕ) → Type 0
  Opens key counter sent ps = open_all key counter sent ≡ some ps

  update_upload-e2e :
      (t : String) (f : UploadState → UploadState) (view : View gcm base64)
      → ((update_upload gcm base64 t f view).e2e ≡ view.e2e)
        × ((update_upload gcm base64 t f view).sent ≡ view.sent)
  unfolding update_upload
  update_upload-e2e t f view = ground arith

  -- The messages of the jobs of a session, from its counter.
  unfoldable pub messages : gcm.Key → ℕ → List (Job gcm base64) → List (Outgoing × String)
  messages key counter [] = []
  messages key counter (seal_and_send plain msg ∷ jobs) =
      (msg, base64.encode (encrypt gcm key plain direction_b2a counter))
      ∷ messages key (counter + 1) jobs
  messages key counter (show_progress t n ∷ jobs) = messages key counter jobs
  messages key counter (show_waiting t ∷ jobs) = messages key counter jobs

  run_jobs-sent :
      (jobs : List (Job gcm base64)) (view : View gcm base64) (s : E2eSession gcm base64)
      → view.e2e ≡ some s
      → (run_jobs gcm base64 jobs view).sent ≡ view.sent ++ messages s.key_b2a s.send_counter jobs
  unfolding run_jobs run_job messages send_sealed
  run_jobs-sent [] view s there = sym (append-nil view.sent)
  run_jobs-sent (seal_and_send plain msg ∷ jobs) view s there =
      let message : Outgoing × String =
        (msg, base64.encode (encrypt gcm s.key_b2a plain direction_b2a s.send_counter)) in
      let next : View gcm base64 = record view {
        e2e = some (record s { send_counter = s.send_counter + 1 });
        sent = view.sent ++ message ∷ [];
      } in
      rw (there, send_sealed)
        (run_jobs-sent jobs next (record s { send_counter = s.send_counter + 1 }) refl
          ∙ append_assoc view.sent (message ∷ []) _)
  run_jobs-sent (show_progress t n ∷ jobs) view s there =
      let same = update_upload-e2e t (λ u. record u { chunks_sent = n }) view in
      run_jobs-sent jobs _ s (same.0 ∙ there)
      ∙ ap (λ sent. sent ++ messages s.key_b2a s.send_counter jobs) same.1
  run_jobs-sent (show_waiting t ∷ jobs) view s there =
      let same = update_upload-e2e t (λ u. record u { status = UploadStatus.waiting }) view in
      run_jobs-sent jobs _ s (same.0 ∙ there)
      ∙ ap (λ sent. sent ++ messages s.key_b2a s.send_counter jobs) same.1

  messages-Opens :
      (key : gcm.Key) (counter : ℕ) (jobs : List (Job gcm base64))
      → Opens key counter (messages key counter jobs) (plains jobs)
  unfolding open_all messages
  messages-Opens key counter [] = refl
  messages-Opens key counter (seal_and_send plain msg ∷ jobs) =
      let frame = encrypt gcm key plain direction_b2a counter in
      rw (base64.decode-encode frame, open_all)
        (rw (decrypt-encrypt gcm key plain direction_b2a counter, open_all)
          (rw (messages-Opens key (counter + 1) jobs, open_all) refl))
  messages-Opens key counter (show_progress t n ∷ jobs) = messages-Opens key counter jobs
  messages-Opens key counter (show_waiting t ∷ jobs) = messages-Opens key counter jobs

  plains-append : (xs ys : List (Job gcm base64)) → plains (xs ++ ys) ≡ plains xs ++ plains ys
  plains-append [] ys = refl
  plains-append (seal_and_send plain msg ∷ xs) ys = ap (λ ps. plain ∷ ps) (plains-append xs ys)
  plains-append (show_progress t n ∷ xs) ys = plains-append xs ys
  plains-append (show_waiting t ∷ xs) ys = plains-append xs ys

  chunk_jobs-plains :
      (t : String) (left i total : ℕ) (buffer : List ℕ)
      → plains (chunk_jobs gcm base64 t left i total buffer) ≡ chunks_from left i buffer
  unfolding chunk_jobs chunks_from
  chunk_jobs-plains t zero i total buffer = refl
  chunk_jobs-plains t (suc left) i total buffer =
      elim (Bool-cases (eqb ((i + 1) % 5) 0 || eqb (i + 1) total)) [
        | inl shown ↦
            rw (shown, chunk_jobs)
              (ap (λ ps. chunk_at i buffer ∷ ps) (chunk_jobs-plains t left (i + 1) total buffer))
        | inr quiet ↦
            rw (quiet, chunk_jobs)
              (ap (λ ps. chunk_at i buffer ∷ ps) (chunk_jobs-plains t left (i + 1) total buffer))
      ]

  -- With a session whose counter is n, whatever is queued before, between and after: the messages that
  -- the queue adds to what was sent open in turn, from n on, to the plaintexts of the jobs.
  run_jobs-Opens :
      (jobs : List (Job gcm base64)) (view : View gcm base64) (s : E2eSession gcm base64)
      → view.e2e ≡ some s
      → (added : List (Outgoing × String)) × ((run_jobs gcm base64 jobs view).sent
          ≡ view.sent ++ added)
        × Opens s.key_b2a s.send_counter added (plains jobs)
  run_jobs-Opens jobs view s there = (
    messages s.key_b2a s.send_counter jobs,
    run_jobs-sent jobs view s there,
    messages-Opens s.key_b2a s.send_counter jobs,
  )

  transfer_jobs-plains :
      (t : String) (file : ImageFile)
      → plains (transfer_jobs gcm base64 t file)
        ≡ file.opening
          ∷ (chunks_from (chunk_count (length file.bytes)) 0 file.bytes ++ file.closing ∷ [])
  unfolding transfer_jobs
  transfer_jobs-plains t file =
      ap (λ ps. file.opening ∷ ps)
        (plains-append
            (chunk_jobs gcm base64 t (chunk_count (length file.bytes)) 0
              (chunk_count (length file.bytes)) file.bytes)
            _
          ∙ ap (λ ps. ps ++ file.closing ∷ [])
              (chunk_jobs-plains t (chunk_count (length file.bytes)) 0
                (chunk_count (length file.bytes)) file.bytes))

  -- If an image is transferred in a session, whatever was queued before, the messages that are sent open
  -- in turn, from the session's counter on, to the plaintexts queued before, the opening, chunks which
  -- joined are the image, and the closing.
  pub transfer_jobs-Opens :
      (before : List (Job gcm base64)) (transfer : String) (file : ImageFile)
      (view : View gcm base64) (s : E2eSession gcm base64)
      → view.e2e ≡ some s
      → (added : List (Outgoing × String)) × (chunks : List (List ℕ)) × ((run_jobs gcm base64
            (before ++ transfer_jobs gcm base64 transfer file)
            view).sent
          ≡ view.sent ++ added)
        × Opens s.key_b2a s.send_counter added
            (plains before ++ file.opening ∷ (chunks ++ file.closing ∷ []))
        × (concat chunks ≡ file.bytes)
  transfer_jobs-Opens before transfer file view s there =
      let (added, sent, opens) =
        run_jobs-Opens (before ++ transfer_jobs gcm base64 transfer file) view s there in
      let same =
        plains-append before (transfer_jobs gcm base64 transfer file)
        ∙ ap (λ ps. plains before ++ ps) (transfer_jobs-plains transfer file) in
      (
        added,
        chunks_from (chunk_count (length file.bytes)) 0 file.bytes,
        sent,
        subst (λ ps. Opens s.key_b2a s.send_counter added ps) same opens,
        chunks-concat file.bytes,
      )
