-- ===== src/Transfer/Tests.antt =====
-- Runs of the secure file transfer on a socket that moves one byte at a time, with an encryption
-- that only pads.
use corestack_peky.Common.{
  ℕ, ◌+◌, ◌-◌, ◌≤◌, ◌≡◌, ◌≢◌, refl, sym, ap, append-nil, arith, List, [], ◌∷◌, ◌++◌, Option, none,
  some, true, length, take, drop, ◌==◌, if◌then◌else◌, slice, length-append, length-slice, ◌⊎◌,
  Bool-cases, inl, inr, take-append,
}
use corestack_peky.Wire.Sockets.{finished, broken}
use corestack_peky.Wire.Messages.{wire_int, wire_field}
use corestack_peky.Wire.Pipe.{Pipe, pipe, pipe-IsOpen, pipe-IsDuplex}
use corestack_peky.Transfer.Openssl.{Openssl, IsPair, IsLawful, Padding}
use corestack_peky.Transfer.Session.{
  session_encrypt, session_decrypt, aes_iv_len, aes_block, hmac_len, hmac_key_len,
}
use corestack_peky.Transfer.Session.Tokens.{session_decrypt-session_encrypt, session_decrypt_sound}
use corestack_peky.Transfer.Blocks.{
  rsa_encrypt_block, encrypt_file, decrypt_file, decoded, enc_total_len,
}
use corestack_peky.Transfer.Blocks.RoundTrip.{decrypt_file-encrypt_file}
use corestack_peky.Transfer.Keys.{
  load_private_key, load_cert_bytes, verify_server_cert, verify_message_pss, sign_message_pss,
}
use corestack_peky.Transfer.Server.{Disk, Server, going, stop, crash, serve, msg_auth, msg_filename}
use corestack_peky.Transfer.Client.{auth, upload}
use corestack_peky.Transfer.Identity.{auth_sound}
use corestack_peky.Transfer.Handshake.{auth-serve}
use corestack_peky.Transfer.Ends.{serve_ends}
use corestack_peky.Transfer.Faults.{serve_overflow}
use corestack_peky.Transfer.Delivery.Sending.{File, wire_message, typed_lines}
use corestack_peky.Transfer.Delivery.Serving.{stored}
use corestack_peky.Transfer.Delivery.Whole.{serve-upload}

abbrev zeros : ℕ → List ℕ
zeros n = slice (λ i. 0) 0 n

-- Blocks of 32 bytes only.
abbrev pad_block : List ℕ → Option (List ℕ)
pad_block m = if length m == 32 then some (m ++ zeros 96) else none

abbrev toy : Openssl
toy = record {
  PrivateKey = Unit {0};
  PublicKey = Unit {0};
  Certificate = Unit {0};
  hmac = λ key m. some (zeros 32);
  encrypt_cbc = λ key iv m. some (m ++ zeros 16);
  decrypt_cbc = λ key iv c. some (take (length c - 16) c);
  pkey_encrypt = λ k p m. pad_block m;
  pkey_decrypt = λ k p c. some (take 32 c);
  digest_sign = λ k m. some (7 ∷ []);
  digest_verify = λ k sig m. true;
  read_private_key = λ file. some tt;
  read_certificate = λ file. some tt;
  get_pubkey = λ cert. some tt;
  verify_cert = λ ca cert. true;
}

pad_block-parts : (m c : List ℕ) → pad_block m ≡ some c → (length m ≡ 32) × (c ≡ m ++ zeros 96)
pad_block-parts m c e = elim (Bool-cases (length m == 32)) [
  | inl t ↦ ground (arith, t)
  | inr f ↦ absurd (ground (arith, f))
]

toy_block-length : (p : Padding) (m c : List ℕ) → pad_block m ≡ some c → length c ≡ 128
toy_block-length p m c e =
    let (size, parts) = pad_block-parts m c e in
    rw parts (omega (arith, length-append m (zeros 96), size))

toy_block-decrypts : (p : Padding) (m c : List ℕ) → pad_block m ≡ some c → some (take 32 c) ≡ some m
toy_block-decrypts p m c e =
    let (size, parts) = pad_block-parts m c e in
    let front : take (length m) (m ++ zeros 96) ≡ m = take-append m (zeros 96) in
    rw (parts, ← size, front) refl

toy-IsPair : IsPair toy tt tt
toy-IsPair = record {
  block_length = toy_block-length;
  decrypts = toy_block-decrypts;
  verifies = λ m sig e. refl;
}

toy_read : (m : List ℕ) → take (length (m ++ zeros 16) - 16) (m ++ zeros 16) ≡ m
toy_read m =
    let size : length (m ++ zeros 16) - 16 ≡ length m = omega (arith, length-append m (zeros 16)) in
    rw size (take-append m (zeros 16))

toy_tag : (tag : List ℕ) → some (zeros 32) ≡ some tag → length tag ≡ 32
toy_tag tag e = let same : zeros 32 ≡ tag = cc in rw (← same) refl

toy_length : (m c : List ℕ) → some (m ++ zeros 16) ≡ some c → length c ≡ length m + 16
toy_length m c e = let same : m ++ zeros 16 ≡ c = cc in rw (← same) (length-append m (zeros 16))

toy_decrypts :
    (m c : List ℕ) → some (m ++ zeros 16) ≡ some c → some (take (length c - 16) c) ≡ some m
toy_decrypts m c e = let same : m ++ zeros 16 ≡ c = cc in rw (← same, toy_read m) refl

toy-IsLawful : IsLawful toy
toy-IsLawful = record {
  tag_length = λ key m tag e. toy_tag tag e;
  padded = λ key iv m c e. (omega (arith, toy_length m c e), omega (arith, toy_length m c e));
  padded_most = λ key iv m c e. omega (arith, toy_length m c e);
  decrypts_cbc = λ key iv m c e. toy_decrypts m c e;
}

abbrev key_bytes : List ℕ
key_bytes = slice (λ i. i + 1) 0 32

abbrev note : List ℕ
note = 5 ∷ 6 ∷ []

abbrev note_token : List ℕ
note_token = zeros 16 ++ ((note ++ zeros 16) ++ zeros 32)

note-encrypted : session_encrypt toy key_bytes (some (zeros 16)) note ≡ some note_token
unfolding session_encrypt
note-encrypted = refl

session_decrypt-session_encrypt_example : session_decrypt toy key_bytes note_token ≡ some note
session_decrypt-session_encrypt_example =
    session_decrypt-session_encrypt toy key_bytes (zeros 16) note note_token toy-IsLawful refl
      (omega arith) note-encrypted

session_decrypt_sound_example :
    let ct_len = length note_token - aes_iv_len - hmac_len in
    (aes_iv_len + aes_block + hmac_len ≤ length note_token)
    × (toy.hmac (take hmac_key_len key_bytes) (take (aes_iv_len + ct_len) note_token)
        ≡ some (drop (aes_iv_len + ct_len) note_token))
    × (toy.decrypt_cbc
          (drop hmac_key_len key_bytes)
          (take aes_iv_len note_token)
          (take ct_len (drop aes_iv_len note_token))
        ≡ some note)
session_decrypt_sound_example =
    session_decrypt_sound toy key_bytes note_token note (omega arith)
      session_decrypt-session_encrypt_example

decrypt_file-encrypt_file_example :
    ((m : List ℕ) × (rsa_encrypt_block toy tt m true ≡ none)
      × (encrypt_file toy note tt true ≡ broken))
    ⊎ ((enc : List ℕ) × (encrypt_file toy note tt true ≡ finished enc)
        × (length enc ≡ enc_total_len true (length note))
        × (length note ≤ length enc)
        × (decrypt_file toy enc tt true ≡ decoded note))
decrypt_file-encrypt_file_example = decrypt_file-encrypt_file toy toy-IsPair true note

abbrev toy_disk : Disk
toy_disk = record {
  private_key_pem = some (1 ∷ []);
  server_signed_crt = some (2 ∷ []);
  writable = λ path. true;
}

abbrev fresh_pipe : List ℕ → Pipe
fresh_pipe bytes = record { ahead = bytes; behind = [] }

abbrev fresh_server : List ℕ → Server Pipe
fresh_server bytes = record {
  filename = [];
  session_key = none;
  saved = [];
  net = fresh_pipe bytes;
}

abbrev one_file : List File
one_file = (record { name = 97 ∷ []; bytes = note }) ∷ []

abbrev client : Pipe
client =
    (upload pipe toy (some key_bytes) tt 128 (λ name. true) (λ name. some note)
      (λ k. some (zeros 16)) (typed_lines one_file) (fresh_pipe [])).1

key-encrypted : rsa_encrypt_block toy tt key_bytes true ≡ some (key_bytes ++ zeros 96)
unfolding rsa_encrypt_block
key-encrypted = refl

has_key : load_private_key toy toy_disk.private_key_pem ≡ some tt
unfolding load_private_key
has_key = refl

iv_size : (j : ℕ) (i : List ℕ) → some (zeros 16) ≡ some i → length i ≡ aes_iv_len
iv_size j i e = let same : zeros 16 ≡ i = cc in rw (← same) refl

serve-upload_example :
    ((serve pipe toy toy_disk 4 (fresh_server client.behind)).0 ≡ stop)
    × ((serve pipe toy toy_disk 4 (fresh_server client.behind)).1.saved ≡ stored one_file)
serve-upload_example =
    serve-upload pipe pipe-IsOpen toy toy-IsPair toy-IsLawful toy_disk key_bytes
      (key_bytes ++ zeros 96) 128 (λ name. true) (λ name. some note) (λ k. some (zeros 16)) one_file
      (note_token ∷ []) (fresh_pipe []) (fresh_server client.behind) 4 key-encrypted refl has_key
      iv_size (refl, refl, refl, refl, tt) (omega arith, refl, refl, omega arith, tt)
      (note-encrypted, tt) refl refl (omega arith)

crt-parsed : load_cert_bytes toy (2 ∷ []) ≡ some tt
unfolding load_cert_bytes
crt-parsed = refl

crt-trusted : verify_server_cert toy tt (some (3 ∷ [])) ≡ true
unfolding verify_server_cert
crt-trusted = refl

challenge-signed : sign_message_pss toy tt key_bytes ≡ some (7 ∷ [])
unfolding sign_message_pss
challenge-signed = refl

abbrev asked : Server Pipe
asked = fresh_server (wire_message msg_auth key_bytes)

abbrev asking : Pipe
asking = fresh_pipe (serve pipe toy toy_disk 1 asked).1.net.behind

auth-serve_example :
    ((serve pipe toy toy_disk 1 asked).0 ≡ going tt)
    × ((auth pipe toy (some key_bytes) (some (3 ∷ [])) asking).0 ≡ some tt)
    × ((auth pipe toy (some key_bytes) (some (3 ∷ [])) asking).1.behind
        ≡ wire_message msg_auth key_bytes)
auth-serve_example =
    auth-serve pipe pipe-IsOpen toy toy_disk key_bytes (7 ∷ []) (2 ∷ []) [] (some (3 ∷ [])) tt
      toy-IsPair asking asked refl (omega arith) (omega arith) has_key refl crt-parsed refl
      crt-trusted challenge-signed (sym (append-nil (wire_message msg_auth key_bytes))) refl refl

auth_sound_example :
    (cert : Unit {0}) × (sig : List ℕ) × (verify_server_cert toy cert (some (3 ∷ [])) ≡ true)
    × (verify_message_pss toy cert sig key_bytes ≡ true)
    × (toy.get_pubkey cert ≡ some tt)
auth_sound_example = auth_sound pipe toy key_bytes (some (3 ∷ [])) asking tt auth-serve_example.1

serve_ends_example : (serve pipe toy toy_disk 5 (fresh_server (1 ∷ 2 ∷ 3 ∷ 4 ∷ []))).0 ≢ going tt
serve_ends_example =
    serve_ends pipe pipe-IsDuplex toy toy_disk 5 (fresh_server (1 ∷ 2 ∷ 3 ∷ 4 ∷ [])) (omega arith)

long_name : List ℕ
long_name = slice (λ i. 97) 0 4097

length-long_name : length long_name ≡ 4097
unfolding long_name
length-long_name = length-slice {A = ℕ} (λ i. 97) 0 4097

serve_overflow_example :
    (serve pipe toy toy_disk 1 (fresh_server (wire_int msg_filename ++ wire_field long_name))).0
    ≡ crash
serve_overflow_example =
    serve_overflow pipe pipe-IsOpen toy toy_disk 0 long_name []
      (fresh_server (wire_int msg_filename ++ wire_field long_name))
      (omega (arith, length-long_name)) (omega (arith, length-long_name))
      (ap (λ x. wire_int msg_filename ++ x) (sym (append-nil (wire_field long_name))))
