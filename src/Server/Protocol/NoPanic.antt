-- ===== src/Server/Protocol/NoPanic.antt =====
-- letmeind/src/protocol.rs: the whole run does not panic.
use letmein.Base.{
  list_has_eq, nat_has_eq, ◌≡◌, inl, List, [], ◌∷◌, length, refl, sym, subst, ◌≢◌, Bool, true,
  false, ◌||◌, Option, ◌==◌, list_eq, ok, err, panic, check,
}
use letmein.Base.Bytes.{Bytes}
use letmein.Base.Texts.{Text}
use letmein.Conf.{Resource, port_resource, Config, server_variant}
use letmein.Conf.Durations.{F64}
use letmein.Conf.Keys.{Usable}
use letmein.Conf.Load.{new_config, load}
use letmein.Conf.Load.Ready.{load-Ready}
use letmein.Conf.Loaded.{Sound, Loaded}
use letmein.FwProto.Fields.{
  FirewallOperation, nack, ack, opens, closes, IpAddr, PortType, tcp, udp, tcp_udp,
}
use letmein.FwProto.Message.{FirewallMessage, new_open, new_close}
use letmein.Proto.Auth.{mac_input, check_auth_ok, generate_challenge}
use letmein.Proto.Message.{key_size, Key, Message}
use letmein.Proto.Operation.{challenge, come_in, response, close, operation_has_eq}
use letmein.Server.FirewallClient.{
  reply_result, take_reply, exchange, connect, open_port, close_port,
}
use letmein.Server.Protocol.{
  challenge_client, reconfigure, welcome, requested_type, new_msg, reject, recv_msg,
  receive_initial, authorise, is_full, run,
}
use letmein.Server.Protocol.Calm.{
  challenge-ok, GoodNonce, NonceNext, GoodRandom-NonceNext, random-Safe, generate_challenge-ok,
  receive_initial-Safe, recv_msg-Safe, authorise-Safe, IsInitial, Entrusted,
}
use letmein.Server.Protocol.Sure.{
  GoodSalt, GoodRandom, GoodRandom-GoodSalt, AfterKept, send_msg-Safe, new_msg-Safe, Salted,
  reject-Safe, ensure-Safe, lift-Safe,
}
use letmein.Server.Safety.{
  Safe, Always, Safe-continue, Safe-ne-panic, Safe-forget, if-Safe, choose-Safe, Safe-on_error,
}
use letmein.Server.Session.{
  challenge_response, FwReply, replied, fw_closed, fw_error, fw_sent, fw_got, Session, record_event,
  send_msg, AuthState, not_auth, basic_authenticated, Failure, response_auth_failed,
  fw_connect_failed, fw_failed, fw_connected, on_error, random,
}

-- What is left of the random bytes when the client has answered the challenge
abbrev Challenged : Unit {0} → Session → Type 0
Challenged _ s = GoodSalt s.fills × (s.auth_state ≡ challenge_response)

abbrev SaltLeft : Unit {0} → Session → Type 0
SaltLeft _ s = GoodSalt s.fills

abbrev SaltKept : Session → Type 0
SaltKept s = GoodSalt s.fills

reply_Safe :
    (operation : FirewallOperation) (s : Session)
    → GoodSalt s.fills
    → Safe SaltLeft SaltKept (reply_result operation, s)
reply_Safe ack s h = h
reply_Safe nack s h = h
reply_Safe opens s h = h
reply_Safe closes s h = h

take_reply-Safe :
    (rs : List FwReply) (s : Session) → GoodSalt s.fills → Safe SaltLeft SaltKept (take_reply rs s)
take_reply-Safe [] s h = h
take_reply-Safe (fw_closed ∷ rs) s h = h
take_reply-Safe (fw_error ∷ rs) s h = h
take_reply-Safe (replied m ∷ rs) s h =
    reply_Safe m.operation (record s { fw_replies = rs; trace = fw_got m ∷ s.trace }) h

exchange-Safe :
    (m : FirewallMessage) (s : Session) → GoodSalt s.fills → Safe SaltLeft SaltKept (exchange m s)
unfolding exchange
exchange-Safe m s h =
    if-Safe SaltLeft SaltKept s.fw_sends (take_reply s.fw_replies (record_event (fw_sent m) s))
      (err fw_failed, record_event (fw_sent m) s)
      (take_reply-Safe s.fw_replies (record_event (fw_sent m) s) h) h

connect-Safe : (s : Session) → Challenged tt s → Safe Challenged SaltKept (connect s)
unfolding connect
connect-Safe s h =
    if-Safe Challenged SaltKept s.fw_connects (ok tt, record_event fw_connected s)
      (err fw_connect_failed, s) h h.0

requested-ok : (t u : Bool) → (t || u) ≡ true → (p : PortType) × (requested_type t u ≡ ok p)
unfolding requested_type
requested-ok true true h = (tcp_udp, refl)
requested-ok true false h = (tcp, refl)
requested-ok false true h = (udp, refl)
requested-ok false false h = cc

module _ (mac : Key → Bytes → Bytes) (conf : Config) (peer : IpAddr) where
  challenge_client-Safe :
      (msg : Message) (key : Key) (s : Session)
      → GoodRandom s.fills
      → length key ≡ key_size
      → Safe Challenged Always (challenge_client mac conf peer msg key s)
  unfolding challenge_client
  challenge_client-Safe msg key s h size =
      Safe-continue (Salted challenge s) Challenged
        (new_msg mac conf peer challenge msg.user msg.resource s) _
        (new_msg-Safe mac conf peer challenge msg.user msg.resource s
          (GoodRandom-GoodSalt s.fills h))
        λ base s1 k1.
          Safe-continue (λ fill s'. GoodNonce fill × GoodSalt s'.fills) Challenged (random s1) _
            (random-Safe s1 (subst NonceNext (sym k1.0) (GoodRandom-NonceNext s.fills h)))
            λ fill s2 k2.
              let (c, generated, challenges) = generate_challenge-ok base fill k1.2 k2.0 in
              lift-Safe mac conf peer Challenged s2 (generate_challenge base fill) c _ generated (
                Safe-continue (AfterKept s2) Challenged (send_msg c s2) _ (send_msg-Safe c s2)
                  λ _ s3 k3.
                    Safe-continue (λ m s'. GoodSalt s'.fills × (m.operation ≡ response)) Challenged
                      (recv_msg mac conf peer response s3) _
                      (recv_msg-Safe mac conf peer s3 (subst GoodSalt (sym k3.0) k2.1))
                      λ answer s4 k4.
                        lift-Safe mac conf peer Challenged s4 (check_auth_ok mac answer key c) _ _
                          (challenge-ok mac answer key c challenges.0 k4.1 size challenges.1)
                          (ensure-Safe mac conf peer Challenged s4
                            (list_eq answer.auth (mac key (mac_input answer c.auth)))
                            response_auth_failed _ k4.0 λ _. (k4.0, refl)))

  ask-Safe :
      (m : FirewallMessage) (s : Session)
      → GoodSalt s.fills
      → Safe SaltLeft Always (on_error (exchange m) (reject mac conf peer fw_failed) s)
  ask-Safe m s h =
      Safe-on_error SaltKept SaltLeft (exchange m s) (reject mac conf peer fw_failed)
        (exchange-Safe m s h) (reject-Safe mac conf peer SaltLeft fw_failed)

  check-full :
      (state : AuthState)
      → state ≡ challenge_response
      → check {E = Failure} (is_full mac conf peer state) ≡ ok tt
  check-full challenge_response e = refl
  check-full basic_authenticated e = cc
  check-full not_auth e = cc

  reconfigure-Safe :
      (msg : Message) (r : Resource) (s : Session)
      → Sound msg.resource r
      → Challenged tt s
      → Safe SaltLeft Always (reconfigure mac conf peer msg r s)
  unfolding reconfigure open_port close_port
  reconfigure-Safe msg (port_resource p t u users) s (i, l, some_protocol, b) (h, full) =
      let (kind, requested) = requested-ok t u some_protocol in
      lift-Safe mac conf peer SaltLeft s (requested_type t u) kind _ requested (
        Safe-continue Challenged SaltLeft
          (on_error connect (reject mac conf peer fw_connect_failed) s) _
          (Safe-on_error SaltKept Challenged (connect s) (reject mac conf peer fw_connect_failed)
            (connect-Safe s (h, full)) (reject-Safe mac conf peer Challenged fw_connect_failed))
          λ _ s1 k1.
            lift-Safe mac conf peer SaltLeft s1 (check (is_full mac conf peer s1.auth_state)) tt _
              (check-full s1.auth_state k1.1)
              (choose-Safe SaltLeft (msg.operation == close)
                (on_error (close_port peer kind p) (reject mac conf peer fw_failed))
                (on_error (open_port peer kind p) (reject mac conf peer fw_failed)) s1
                (ask-Safe (new_close peer kind p) s1 k1.0)
                (ask-Safe (new_open peer kind p) s1 k1.0)))

  welcome-Safe :
      (msg : Message) (s : Session)
      → GoodSalt s.fills
      → Safe (λ _. Always) Always (welcome mac conf peer msg s)
  unfolding welcome
  welcome-Safe msg s h =
      Safe-continue (Salted come_in s) (λ _. Always)
        (new_msg mac conf peer come_in msg.user msg.resource s) _
        (new_msg-Safe mac conf peer come_in msg.user msg.resource s h)
        (λ m s' k. Safe-forget (AfterKept s') (send_msg m s') (send_msg-Safe m s'))

  module _ (usable : Usable conf.keys) (loaded : Loaded conf.resources) where
    run-Safe : (s : Session) → GoodRandom s.fills → Safe (λ _. Always) Always (run mac conf peer s)
    unfolding run
    run-Safe s h =
        Safe-continue (λ msg s'. GoodRandom s'.fills × IsInitial msg) (λ _. Always)
          (receive_initial mac conf peer s) _ (receive_initial-Safe mac conf peer s h)
          λ msg s1 k1.
            Safe-continue (Entrusted msg) (λ _. Always) (authorise mac conf peer msg s1) _
              (authorise-Safe mac conf peer usable loaded msg s1 k1.1 k1.0)
              λ granted s2 k2.
                Safe-continue Challenged (λ _. Always)
                  (challenge_client mac conf peer msg granted.0 s2) _
                  (challenge_client-Safe msg granted.0 s2 k2.0 k2.1)
                  λ _ s3 k3.
                    Safe-continue SaltLeft (λ _. Always)
                      (reconfigure mac conf peer msg granted.1 s3) _
                      (reconfigure-Safe msg granted.1 s3 k2.2 k3) λ _ s4 k4. welcome-Safe msg s4 k4

-- With a configuration that the server has loaded from a file, and with random bytes that pass the
-- checks of `secure_random`, no behaviour of the client, of the network and of the firewall daemon
-- makes the server's run panic.
pub run_no_panic :
    (read_f64 : Text → Option F64) (file : Option Text) (conf : Config) (mac : Key → Bytes → Bytes)
    (peer : IpAddr) (s : Session)
    → load read_f64 (new_config server_variant) file ≡ ok conf
    → GoodRandom s.fills
    → (run mac conf peer s).0 ≢ panic
run_no_panic read_f64 file conf mac peer s e h =
    let ready = load-Ready read_f64 (new_config server_variant) file conf (inl refl) e in
    Safe-ne-panic (λ _. Always) (run mac conf peer s)
      (run-Safe mac conf peer ready.keys ready.resources s h)
