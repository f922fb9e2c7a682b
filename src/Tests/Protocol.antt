-- ===== src/Tests/Protocol.antt =====
-- The wire formats and the tokens.
use letmein.Base.{
  ◌%◌, ◌≡◌, refl, ◌⊎◌, inl, true, [], ◌∷◌, ◌++◌, arith, length, replicate, All, list_eq, ok, ◌<◌,
  ◌≢◌, err,
}
use letmein.Base.Bytes.{Bytes, IsByte, slice, from_be}
use letmein.FwProto.Fields.{opens, closes, udp, IpAddr, v4}
use letmein.FwProto.Message.{new_open, new_close}
use letmein.FwProto.Wire.RoundTrip.{Delivered, requests-Delivered}
use letmein.Proto.Auth.{
  mac_input, authenticate, check_auth_ok, check_auth_ok_no_challenge, generate_auth,
  generate_auth_no_challenge,
}
use letmein.Proto.Auth.Binding.{
  SameContent, Collision, check_auth_ok-binds, knock_token-not-response,
}
use letmein.Proto.Auth.Tokens.{Returns32, check-generate_no_challenge, check-generate}
use letmein.Proto.Message.{magic_code, zero_auth, Key, Message, IsValid}
use letmein.Proto.Operation.{
  size_mismatch, bad_magic, bad_operation, Operation, knock, challenge, response, go_away, try_from,
  Error,
}
use letmein.Proto.Wire.{msg_size, msg_serialize, try_msg_deserialize}
use letmein.Proto.Wire.RoundTrip.{
  deserialize-serialize, serialize-deserialize, fields, deserialize_total,
}

-- A MAC for the tests, of 32 bytes.
abbrev toy_mac : Key → Bytes → Bytes
toy_mac k x = replicate 32 (length x % 256)

toy_mac_size : Returns32 toy_mac
toy_mac_size k x = (refl, ground arith)

abbrev key : Key
key = replicate 32 9

abbrev pub message : Operation → Message
message operation = record {
  magic = magic_code;
  operation = operation;
  user = 1;
  resource = 2;
  salt = replicate 8 3;
  auth = replicate 32 80;
}

pub message-IsValid : (o : Operation) → IsValid (message o)
message-IsValid o = record {
  magic_ok = refl;
  user_ok = omega arith;
  resource_ok = omega arith;
  salt_ok = refl;
  auth_ok = refl;
  salt_bytes = ground arith;
  auth_bytes = ground arith;
}

deserialize-serialize_example :
    try_msg_deserialize (msg_serialize (message knock)) ≡ ok (message knock)
deserialize-serialize_example = deserialize-serialize (message knock) (message-IsValid knock)

abbrev wire : Bytes
wire =
    0x3B
    ∷ 0x1B
    ∷ 0xB7
    ∷ 0x19
    ∷ 0
    ∷ 0
    ∷ 0
    ∷ 4
    ∷ 0
    ∷ 0
    ∷ 0
    ∷ 1
    ∷ 0
    ∷ 0
    ∷ 0
    ∷ 2
    ∷ (replicate 8 3 ++ replicate 32 80)

wire_bytes : All IsByte wire
wire_bytes = ground arith

wire_read : try_msg_deserialize wire ≡ ok (message go_away)
unfolding try_msg_deserialize try_from
wire_read = refl

serialize-deserialize_example : IsValid (message go_away) × (msg_serialize (message go_away) ≡ wire)
serialize-deserialize_example = serialize-deserialize wire (message go_away) wire_bytes wire_read

check-generate_no_challenge_example :
    (m' : Message) × (generate_auth_no_challenge toy_mac {E = Error} (message knock) key ≡ ok m')
    × (try_msg_deserialize (msg_serialize m') ≡ ok m')
    × (check_auth_ok_no_challenge toy_mac {E = Error} m' key ≡ ok true)
check-generate_no_challenge_example =
    check-generate_no_challenge toy_mac toy_mac_size (message knock) key (message-IsValid knock)
      (inl refl) refl

check-generate_example :
    (m' : Message) × (generate_auth toy_mac {E = Error} (message response) key (message challenge)
      ≡ ok m')
    × (try_msg_deserialize (msg_serialize m') ≡ ok m')
    × (check_auth_ok toy_mac {E = Error} m' key (message challenge) ≡ ok true)
check-generate_example =
    check-generate toy_mac toy_mac_size (message response) (message challenge) key
      (message-IsValid response) (message-IsValid challenge) refl refl refl

-- The input of the MAC has 56 bytes, so this token passes.
abbrev tagged : Operation → Message
tagged operation = record (message operation) { auth = replicate 32 52 }

tagged-IsValid : (o : Operation) → IsValid (tagged o)
tagged-IsValid o = record {
  magic_ok = refl;
  user_ok = omega arith;
  resource_ok = omega arith;
  salt_ok = refl;
  auth_ok = refl;
  salt_bytes = ground arith;
  auth_bytes = ground arith;
}

knock_passes : check_auth_ok_no_challenge toy_mac {E = Error} (tagged knock) key ≡ ok true
unfolding check_auth_ok_no_challenge authenticate list_eq
knock_passes = refl

response_passes :
    check_auth_ok toy_mac {E = Error} (tagged response) key (message challenge) ≡ ok true
unfolding check_auth_ok authenticate list_eq
response_passes = refl

check_auth_ok-binds_example :
    SameContent
      (tagged response)
      (tagged response)
      (message challenge).auth
      (message challenge).auth
    ⊎ Collision toy_mac key
        (mac_input (tagged response) (message challenge).auth)
        (mac_input (tagged response) (message challenge).auth)
check_auth_ok-binds_example =
    check_auth_ok-binds toy_mac (tagged response) (tagged response) (message challenge)
      (message challenge) key (tagged-IsValid response) (tagged-IsValid response) refl
      response_passes response_passes

knock_token-not-response_example :
    Collision toy_mac key
      (mac_input (tagged knock) zero_auth)
      (mac_input (tagged response) (message challenge).auth)
knock_token-not-response_example =
    knock_token-not-response toy_mac (tagged knock) (tagged response) (message challenge) key
      (tagged-IsValid knock) (tagged-IsValid response) refl knock_passes response_passes

abbrev peer : IpAddr
peer = v4 (192 ∷ 0 ∷ 2 ∷ 1 ∷ [])

requests-Delivered_example :
    Delivered opens peer udp 53 (new_open peer udp 53)
    × Delivered closes peer udp 53 (new_close peer udp 53)
requests-Delivered_example = requests-Delivered peer udp 53 (refl, ground arith) (omega arith)

deserialize_total_example :
    ((length wire ≢ msg_size) × (try_msg_deserialize wire ≡ err size_mismatch))
    ⊎ ((length wire ≡ msg_size)
        × (from_be (slice wire 0 4) 0 ≢ magic_code)
        × (try_msg_deserialize wire ≡ err bad_magic))
    ⊎ ((length wire ≡ msg_size)
        × (from_be (slice wire 0 4) 0 ≡ magic_code)
        × (5 < from_be (slice wire 4 4) 0)
        × (try_msg_deserialize wire ≡ err bad_operation))
    ⊎ ((o : Operation) × (length wire ≡ msg_size)
        × (from_be (slice wire 0 4) 0 ≡ magic_code)
        × (try_from (from_be (slice wire 4 4) 0) ≡ ok o)
        × (try_msg_deserialize wire ≡ ok (fields wire o)))
deserialize_total_example = deserialize_total wire
