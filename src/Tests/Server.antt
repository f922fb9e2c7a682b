-- ===== src/Tests/Server.antt =====
-- letmeind: a whole session with a client that knows the key, and one with a client that does not.
use letmein.Base.{
  nat_has_eq, ℕ, ◌≡◌, refl, ◌≢◌, true, false, none, some, List, [], ◌∷◌, ◌++◌, take, replicate,
  list_eq, ok,
}
use letmein.Base.Assoc.{lookup}
use letmein.Base.Bytes.{Bytes}
use letmein.Base.Texts.{text}
use letmein.Conf.{
  port_resource, contains_user, ErrorPolicy, always, basic_auth, off, server_variant, Config,
}
use letmein.FwProto.Fields.{tcp, IpAddr, v4}
use letmein.FwProto.Message.{FirewallMessage, new_open, new_ack}
use letmein.Proto.Auth.{authenticate, check_auth_ok, check_auth_ok_no_challenge, generate_challenge}
use letmein.Proto.Message.{new, magic_code, zero_auth, Key, Message, secure_random}
use letmein.Proto.Operation.{
  operation_has_eq, Operation, knock, challenge, response, come_in, go_away,
}
use letmein.Server.FirewallClient.{open_port, connect, exchange}
use letmein.Server.Protocol.{
  requested_type, new_msg, send_go_away, reject, recv_msg, receive_initial, authorise,
  challenge_client, reconfigure, welcome, run,
}
use letmein.Server.Protocol.Allowed.{BasicAuth, Reportable, Asked, Granted}
use letmein.Server.Protocol.Claims.{
  trace_of, request_authenticated, silent_before_auth, go_away-Reportable, run-come_in,
}
use letmein.Server.Session.{
  not_auth, RxEvent, received, TxEvent, tx_done, replied, Event, got, sent, fw_connected, fw_sent,
  fw_got, Session, receive, send_msg, random,
}

-- A MAC for the tests: the first bytes of the key and the input.
abbrev pub toy_mac : Key → Bytes → Bytes
toy_mac k x = take 32 (k ++ x)

abbrev pub user_key : Key
user_key = replicate 31 9 ++ (8 ∷ [])

abbrev pub conf_with : ErrorPolicy → Config
conf_with policy = record {
  variant = server_variant;
  debug = false;
  control_port = record { port = 5800; tcp = true; udp = false };
  control_timeout = 5000;
  control_error_policy = policy;
  seccomp = off;
  keys = (1, user_key) ∷ [];
  resources = (2, port_resource 22 true false []) ∷ [];
  default_user = 0;
  nft_exe = text "nft";
  nft_family = text "inet";
  nft_table = text "filter";
  nft_chain_input = text "LETMEIN-INPUT";
  nft_timeout = 600000;
}

abbrev pub peer : IpAddr
peer = v4 (192 ∷ 0 ∷ 2 ∷ 1 ∷ [])

abbrev message : Operation → ℕ → Bytes → Message
message operation fill auth = record {
  magic = magic_code;
  operation = operation;
  user = 1;
  resource = 2;
  salt = replicate 7 fill ++ (0 ∷ []);
  auth = auth;
}

abbrev knock_msg : Message
knock_msg = message knock 1 user_key

abbrev challenge_msg : Message
challenge_msg = message challenge 2 (replicate 31 5 ++ (6 ∷ []))

abbrev response_msg : Message
response_msg = message response 3 user_key

abbrev come_in_msg : Message
come_in_msg = message come_in 4 zero_auth

abbrev session : List RxEvent → List TxEvent → Session
session rx tx = record {
  user_id = none;
  resource_id = none;
  auth_state = not_auth;
  rx = rx;
  tx = tx;
  fills = some challenge_msg.salt ∷ some challenge_msg.auth ∷ some come_in_msg.salt ∷ [];
  fw_connects = true;
  fw_sends = true;
  fw_replies = replied new_ack ∷ [];
  trace = [];
}

-- The client knocks and answers the challenge.
abbrev pub honest : Session
honest = session (received knock_msg ∷ received response_msg ∷ []) (tx_done ∷ tx_done ∷ [])

abbrev request : FirewallMessage
request = new_open peer tcp 22

abbrev exchanged : List Event
exchanged = got response_msg ∷ sent challenge_msg ∷ got knock_msg ∷ []

honest-run : (run toy_mac (conf_with always) peer honest).0 ≡ ok tt
unfolding run receive_initial authorise challenge_client reconfigure welcome receive recv_msg
    send_msg new_msg random new generate_challenge secure_random check_auth_ok
    check_auth_ok_no_challenge authenticate lookup list_eq contains_user requested_type connect
    open_port exchange new_ack new_open
honest-run = refl

honest_trace :
    trace_of toy_mac (conf_with always) peer honest
    ≡ (sent come_in_msg ∷ fw_got new_ack ∷ []) ++ (fw_sent request ∷ (fw_connected ∷ exchanged))
unfolding run receive_initial authorise challenge_client reconfigure welcome receive recv_msg
    send_msg new_msg random new generate_challenge secure_random check_auth_ok
    check_auth_ok_no_challenge authenticate lookup list_eq contains_user requested_type connect
    open_port exchange new_ack new_open
honest_trace = refl

request_authenticated_example :
    Asked toy_mac (conf_with always) peer (fw_connected ∷ exchanged) request
request_authenticated_example =
    request_authenticated toy_mac (conf_with always) peer honest
      (sent come_in_msg ∷ fw_got new_ack ∷ []) request (fw_connected ∷ exchanged) refl honest_trace

run-come_in_example :
    (m : Message) × (before : List Event) × (trace_of toy_mac (conf_with always) peer honest
      ≡ sent m ∷ before)
    × (m.operation ≡ come_in)
    × Granted toy_mac (conf_with always) peer before
run-come_in_example = run-come_in toy_mac (conf_with always) peer honest refl honest-run

-- A wrong response, with the policy to report behind the first token.
abbrev wrong : Session
wrong = session (received knock_msg ∷ received challenge_msg ∷ []) (tx_done ∷ tx_done ∷ [])

abbrev go_away_msg : Message
go_away_msg = message go_away 4 zero_auth

wrong_trace :
    trace_of toy_mac (conf_with basic_auth) peer wrong
    ≡ [] ++ (sent go_away_msg ∷ (got challenge_msg ∷ sent challenge_msg ∷ got knock_msg ∷ []))
unfolding run receive_initial authorise challenge_client recv_msg receive send_msg new_msg random
    new generate_challenge secure_random check_auth_ok_no_challenge authenticate lookup list_eq
    contains_user reject send_go_away
wrong_trace = refl

go_away-Reportable_example :
    Reportable toy_mac
      (conf_with basic_auth)
      basic_auth
      (got challenge_msg ∷ sent challenge_msg ∷ got knock_msg ∷ [])
go_away-Reportable_example =
    go_away-Reportable toy_mac (conf_with basic_auth) peer wrong [] go_away_msg
      (got challenge_msg ∷ sent challenge_msg ∷ got knock_msg ∷ []) refl refl wrong_trace

not_always : basic_auth ≢ always
not_always = λ e. cc

silent_before_auth_example :
    BasicAuth toy_mac
      (conf_with basic_auth)
      (got challenge_msg ∷ sent challenge_msg ∷ got knock_msg ∷ [])
silent_before_auth_example =
    silent_before_auth toy_mac (conf_with basic_auth) peer wrong [] go_away_msg
      (got challenge_msg ∷ sent challenge_msg ∷ got knock_msg ∷ []) refl not_always wrong_trace
