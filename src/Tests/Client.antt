-- ===== src/Tests/Client.antt =====
-- letmein: a whole session with the server, the control port and the address modes.
use letmein.Base.{
  nat_has_eq, ℕ, ◌≡◌, refl, ◌≢◌, ◌⊎◌, inr, true, false, not, none, some, List, [], ◌∷◌, ◌++◌, arith,
  replicate, list_eq, Result, ok, err, panic,
}
use letmein.Base.Assoc.{lookup, Distinct}
use letmein.Base.Bytes.{Bytes}
use letmein.Client.{ClientError, init_failed, Link, new_client}
use letmein.Client.Agreement.{first_message, second_message, client_link, client_done}
use letmein.Client.LetIn.{Agreed, Randomness, client_let_in}
use letmein.Client.Modes.{to_control_port-one}
use letmein.Client.Sequence.{ResMode, res_ipv6, res_ipv4, ServerPort, to_control_port, sequence}
use letmein.Conf.{ControlPort, Resource, port_resource, contains_user, always, resource_id_by_port}
use letmein.Conf.Lookups.{Fits, resource_id_by_port-Fits}
use letmein.FwProto.Fields.{ack, tcp}
use letmein.FwProto.Message.{new_close, new_ack}
use letmein.Proto.Message.{zero_auth, ResourceId, secure_random}
use letmein.Proto.Operation.{operation_has_eq, challenge, come_in, close}
use letmein.Server.Protocol.{requested_type, run}
use letmein.Server.Protocol.Honest.{made, meeting, welcomed}
use letmein.Server.Session.{tx_done, tx_error}
use letmein.Tests.Server.{toy_mac, conf_with, user_key, peer}

abbrev salt : ℕ → Bytes
salt fill = replicate 7 fill ++ (0 ∷ [])

abbrev nonce : Bytes
nonce = replicate 31 5 ++ (6 ∷ [])

agreed : Agreed (conf_with always) close 1 2 user_key 22 true false [] tcp
unfolding lookup contains_user requested_type
agreed = record {
  is_request = inr refl;
  key_known = refl;
  key_length = refl;
  resource_known = refl;
  user_ok = refl;
  not_control = λ e. absurd (omega (arith, e));
  typed = refl;
}

randomness : Randomness (salt 1) (salt 2) (salt 3) nonce (salt 4)
unfolding secure_random list_eq
randomness = record {
  client_salt = refl;
  answer_salt = refl;
  challenge_salt = refl;
  nonce = refl;
  nonce_length = refl;
  come_in_salt = refl;
}

ack_operation : new_ack.operation ≡ ack
unfolding new_ack
ack_operation = refl

client_let_in_example :
    let request = first_message toy_mac close 1 2 user_key (salt 1) in
    let answer = second_message toy_mac close 1 2 user_key (salt 2) nonce in
    let c = made challenge request (salt 3) nonce in
    let m = made come_in request (salt 4) zero_auth in
    (sequence toy_mac close 1 2 user_key
        (ok tt)
        (client_link toy_mac close 1 2 user_key (salt 1) (salt 2) c m)
      ≡ (ok tt, client_done toy_mac close 1 2 user_key (salt 1) (salt 2) nonce))
    × (run toy_mac (conf_with always) peer (meeting request answer (salt 3) nonce (salt 4) new_ack)
        ≡ (ok tt, welcomed request answer (salt 3) nonce (salt 4) new_ack (new_close peer tcp 22)))
client_let_in_example =
    client_let_in toy_mac (conf_with always) peer close 1 2 user_key 22 true false [] tcp (salt 1)
      (salt 2) (salt 3) nonce (salt 4) new_ack agreed randomness ack_operation

abbrev options : ServerPort
options = record { given_port = some 99; given_tcp = false; given_udp = true }

abbrev configured : ControlPort
configured = record { port = 5800; tcp = false; udp = false }

to_control_port-one_example :
    let port = to_control_port options configured in
    (port.tcp ≡ not port.udp) × (new_client true port ≢ panic) × (port.port ≡ 99)
to_control_port-one_example = to_control_port-one options configured true refl

-- An attempt that succeeds over IPv6 only, and notes which attempts were made.
abbrev attempt : ResMode → Link → Result ClientError (Unit {0}) × Link
attempt res_ipv6 l = (ok tt, record l { taken = tx_done ∷ l.taken })
attempt res_ipv4 l = (err init_failed, record l { taken = tx_error ∷ l.taken })

abbrev idle : Link
idle = record { incoming = []; taken = []; client_fills = []; outgoing = [] }

abbrev resources : List (ResourceId × Resource)
resources = (1, port_resource 80 true false (7 ∷ [])) ∷ (2, port_resource 22 true false []) ∷ []

resources-Distinct : Distinct resources
unfolding lookup
resources-Distinct = (refl, (refl, tt))

resource_id_by_port-Fits_example :
    ((resource_id_by_port resources 80 (some 8) ≡ none)
      × ((id : ResourceId) (r : Resource) → lookup id resources ≡ some r → ¬ Fits 80 (some 8) r))
    ⊎ ((id : ResourceId) × (r : Resource) × (resource_id_by_port resources 80 (some 8) ≡ some id)
        × (lookup id resources ≡ some r)
        × Fits 80 (some 8) r)
resource_id_by_port-Fits_example = resource_id_by_port-Fits resources 80 (some 8) resources-Distinct
