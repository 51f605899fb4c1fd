-- ===== src/Gateway/LocalTests.antt =====
-- gateway/src/interfaces/endpoint.rs: runs with one token.
use scg.Base.{inl, inr, ℕ, ◌≡◌, ◌≤◌, ◌+◌, refl, none, some, true, List, [], ◌∷◌, ok, err}
use scg.Base.Bytes.{Bytes}
use scg.Ipc.Token.{CapabilityToken}
use scg.Ipc.Handshake.{new, encode, producer}
use scg.Gateway.LocalPeer.{
  PeerCred, Connection, Admission, process_open, authenticate_peer, serve, token_consumed,
  token_mismatch,
}
use scg.Gateway.LocalPeer.SingleUse.{admitted, uses, serve-admitted}
use scg.Gateway.LocalPeer.Genuine.{IsGenuine, serve-IsGenuine}
use scg.Gateway.LocalPeer.Admitted.{IsTrusted, Presents, authenticate_peer-IsTrusted}

abbrev filled : ℕ → CapabilityToken
filled b = record {
  bytes =
      b ∷ b ∷ b ∷ b ∷ b ∷ b ∷ b ∷ b ∷ b ∷ b ∷ b ∷ b ∷ b ∷ b ∷ b ∷ b ∷ b ∷ b ∷ b ∷ b ∷ b ∷ b ∷ b ∷ b
      ∷ b ∷ b ∷ b ∷ b ∷ b ∷ b ∷ b ∷ b ∷ [];
}

abbrev user : PeerCred
user = record { uid = 1000; pid = 42 }

abbrev with_token : Bytes → Connection
with_token hello = record {
  cred = some user;
  pidfd = process_open;
  timeout_set = true;
  hello = some hello;
  timeout_cleared = true;
}

-- `Hello::new(Role::Producer, token).encode()`
abbrev hello_of : ℕ → Bytes
hello_of b = b'S' ∷ b'C' ∷ b'G' ∷ b'H' ∷ 1 ∷ 1 ∷ 0 ∷ 0 ∷ (filled b).bytes

abbrev one_user : Admission
one_user = record { allowed_uids = 1000 ∷ []; allowed_pids = 42 ∷ []; owner_uid = 1000 }

abbrev three : List Connection
three = with_token (hello_of 8) ∷ with_token (hello_of 7) ∷ with_token (hello_of 7) ∷ []

third_is_late :
    serve one_user three (some (filled 7))
    ≡ (err token_mismatch ∷ ok user ∷ err token_consumed ∷ [], none)
unfolding serve
third_is_late = refl

serve-admitted_example :
    admitted (serve one_user three (some (filled 7))).0
      + uses (serve one_user three (some (filled 7))).1
    ≤ uses (some (filled 7))
serve-admitted_example = serve-admitted one_user three (some (filled 7))

user_is_admitted :
    (authenticate_peer one_user (with_token (hello_of 7)) (some (filled 7))).0 ≡ ok user
unfolding authenticate_peer
user_is_admitted = refl

authenticate_peer-IsTrusted_example :
    IsTrusted one_user (with_token (hello_of 7)) user
    × ((tok : CapabilityToken) × (some (filled 7) ≡ some tok) × Presents (some (hello_of 7)) tok)
    × ((authenticate_peer one_user (with_token (hello_of 7)) (some (filled 7))).1 ≡ none)
authenticate_peer-IsTrusted_example =
    authenticate_peer-IsTrusted one_user (with_token (hello_of 7)) (some (filled 7)) user refl refl
      user_is_admitted

second-IsGenuine : IsGenuine one_user (filled 7) (with_token (hello_of 7))
unfolding new encode scg.Ipc.Handshake.role_byte scg.Ipc.Token.as_bytes
second-IsGenuine = record {
  cred = user;
  trusted = record {
    known = refl;
    user_allowed = refl;
    user_owner = refl;
    process_allowed = refl;
    process_not_gone = refl;
  };
  timeout_set = refl;
  role = producer;
  presents = refl;
}

serve-IsGenuine_example :
    (admitted (serve one_user three (some (filled 7))).0 ≡ 1)
    × ((serve one_user three (some (filled 7))).1 ≡ none)
serve-IsGenuine_example =
    serve-IsGenuine one_user (filled 7) refl three (refl, (refl, (refl, tt)))
      (inr (inl second-IsGenuine))
