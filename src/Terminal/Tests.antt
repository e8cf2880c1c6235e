-- ===== src/Terminal/Tests.antt =====
-- packages/web/src/components/TerminalView.tsx: an image that is sent after a key press.
use Prim.Native.Char.{code}
use remote_ttys.Base.{
  zero, suc, ◌+◌, ap, ◌∙◌, arith, ℕ, true, false, String, none, some, List, [], ◌∷◌, ◌++◌, ◌≡◌,
  refl, eqb, if◌then◌else◌,
}
use remote_ttys.E2e.Tests.{tagging}
use remote_ttys.Terminal.{
  E2eSession, Base64, Outgoing, pty_data, View, Job, seal_and_send, run_jobs,
}
use remote_ttys.Base.Texts.{codes}
use remote_ttys.Terminal.KeyExchange.{Exchange, KeyProps}
use remote_ttys.Terminal.Upload.{ImageFile, transfer_jobs}
use remote_ttys.Terminal.Chunks.{concat}
use remote_ttys.Terminal.Delivery.{plains, Opens, transfer_jobs-Opens}

-- The first character of a text before another text.
abbrev put_first : String → String → String
put_first String.[] s = s
put_first (String.◌∷◌ c t) s = String.◌∷◌ c s

-- Bytes as text: each in unary, closed by a comma.
strokes : ℕ → String → String
strokes zero rest = put_first "," rest
strokes (suc n) rest = put_first "i" (strokes n rest)

write_bytes : List ℕ → String
write_bytes [] = ""
write_bytes (b ∷ bs) = strokes b (write_bytes bs)

read_bytes : ℕ → String → List ℕ
read_bytes n String.[] = []
read_bytes n (String.◌∷◌ c s) =
    let more = read_bytes (suc n) s in
    let rest = read_bytes zero s in if eqb (code c) 0x2c then n ∷ rest else more

read_bytes-strokes :
    (n b : ℕ) (s : String) → read_bytes n (strokes b s) ≡ (n + b) ∷ read_bytes zero s
unfolding read_bytes strokes
read_bytes-strokes n zero s = ap (λ m. m ∷ read_bytes zero s) (omega arith)
read_bytes-strokes n (suc b) s =
    read_bytes-strokes (suc n) b s
    ∙ (let same : suc n + b ≡ n + suc b = omega arith in ap (λ m. m ∷ read_bytes zero s) same)

read_bytes-write_bytes : (bs : List ℕ) → read_bytes zero (write_bytes bs) ≡ bs
unfolding read_bytes write_bytes
read_bytes-write_bytes [] = refl
read_bytes-write_bytes (b ∷ bs) =
    read_bytes-strokes zero b (write_bytes bs)
    ∙ (let same : zero + b ≡ b = omega arith in ap (λ m. m ∷ read_bytes zero (write_bytes bs)) same)
    ∙ ap (λ ys. b ∷ ys) (read_bytes-write_bytes bs)

unary : Base64
unary = record {
  encode = write_bytes;
  decode = λ text. some (read_bytes zero text);
  decode-encode = λ bytes. ap (λ bs. some bs) (read_bytes-write_bytes bytes);
}

abbrev view : View tagging unary
view = record {
  e2e = some (record { key_b2a = 5; key_a2b = 6; send_counter = 7; recv_counter = 0 });
  upload = none;
  sent = [];
}

abbrev typed : List (Job tagging unary)
typed = seal_and_send (97 ∷ []) pty_data ∷ []

abbrev image : ImageFile
image = record {
  name = "";
  mime = "image/png";
  bytes = 1 ∷ 2 ∷ 3 ∷ [];
  opening = 123 ∷ [];
  closing = 125 ∷ [];
  too_large = "";
}

transfer_jobs-Opens_example :
    (added : List (Outgoing × String)) × (chunks : List (List ℕ)) × ((run_jobs tagging unary
        (typed ++ transfer_jobs tagging unary "t1" image)
        view).sent
      ≡ [] ++ added)
    × Opens tagging unary 5 7 added (plains typed ++ (123 ∷ []) ∷ (chunks ++ (125 ∷ []) ∷ []))
    × (concat chunks ≡ 1 ∷ 2 ∷ 3 ∷ [])
transfer_jobs-Opens_example =
    transfer_jobs-Opens tagging unary typed "t1" image view
      (record { key_b2a = 5; key_a2b = 6; send_counter = 7; recv_counter = 0 }) refl

abbrev toy : Exchange ℕ
toy = record {
  Private = ℕ;
  utf8 = codes;
  verify = λ key data_ signature. some true;
  derive = λ private agent_pub salt. some (5, 6);
}

abbrev props : KeyProps ℕ
props = record {
  session_id = "s1";
  is_existing = false;
  identity_key = some "ii,";
  key_pair = some (9, 4 ∷ []);
  agent_public_key = some "i,";
  agent_signature = some "iii,";
}

abbrev session : E2eSession tagging unary
session = record { key_b2a = 5; key_a2b = 6; send_counter = 0; recv_counter = 0 }
