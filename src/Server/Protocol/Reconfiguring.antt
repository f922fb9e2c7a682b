-- ===== src/Server/Protocol/Reconfiguring.antt =====
-- The stage `reconfigure` of `run` in letmeind/src/protocol.rs, with letmeind/src/firewall_client.rs.
use mathlib.Core.List.{append_assoc}
use letmein.Base.{
  ℕ, ◌≡◌, refl, Bool, List, [], ◌∷◌, ◌++◌, sym, ap, ◌∙◌, subst, inl, inr, Bool-cases, true, false,
  if◌then◌else◌, err, check, some, ◌==◌, ok,
}
use letmein.Base.Bytes.{Bytes}
use letmein.Conf.{Config, port_resource}
use letmein.FwProto.Fields.{IpAddr, FirewallOperation, nack, ack, opens, closes, PortType}
use letmein.FwProto.Message.{FirewallMessage, new_open, new_close}
use letmein.Proto.Message.{Key, Message, UserId}
use letmein.Proto.Operation.{operation_has_eq, close}
use letmein.Server.FirewallClient.{
  connect, reply_result, take_reply, exchange, open_port, close_port,
}
use letmein.Server.Logic.{Triple, Outcome, Triple-bind, Triple-on_error}
use letmein.Server.Protocol.{reject, is_full, reconfigure, requested_type}
use letmein.Server.Protocol.Allowed.{FullAuth, Good, BasicAuth, Requested, Asked, Granted}
use letmein.Server.Protocol.Rejection.{reject-Ends}
use letmein.Server.Protocol.Stages.{Known, known}
use letmein.Server.Protocol.Steps.{Ends, At, lift-At}
use letmein.Server.Session.{
  challenge_response, Failure, Event, got, sent, fw_connected, Session, FwReply, replied, fw_closed,
  fw_error, fw_sent, fw_got, record_event, fw_failed, lift, fw_connect_failed, on_error,
}

module _ (mac : Key → Bytes → Bytes) (conf : Config) (peer : IpAddr) where
  -- The client may be let in.
  abbrev pub Welcome : Session → Type 0
  Welcome s = Granted mac conf peer s.trace × Good mac conf peer s.trace

  module _ (before : List Event) (request : Message) (p : ℕ) (tcp? udp? : Bool)
      (full : FullAuth mac conf before request p tcp? udp?) (good : Good mac conf peer before) where
    -- The exchange with the client is done, and nothing forbidden has happened since.
    Since : Session → Type 0
    Since s =
        (later : List Event) × (s.trace ≡ later ++ before)
        × Good mac conf peer s.trace
        × (s.auth_state ≡ challenge_response)

    abbrev Connected : Session → Type 0
    Connected s = (s.trace ≡ fw_connected ∷ before) × (s.auth_state ≡ challenge_response)

    Since-Known : (s : Session) → Since s → Known mac conf peer s.auth_state s.trace
    unfolding Since
    Since-Known s h =
        let basic : BasicAuth mac conf s.trace = record {
          later = h.0 ++ (got full.answer ∷ sent full.c ∷ []);
          request = request;
          key = full.key;
          begins =
              h.1
              ∙ ap (◌++◌ h.0) full.exchanged
              ∙ sym (append_assoc h.0 (got full.answer ∷ sent full.c ∷ []) (got request ∷ []));
          identified = full.identified;
        } in
        subst (λ a. Known mac conf peer a s.trace) (sym h.3)
          (basic, (h.0, before, h.1, (request, p, tcp?, udp?, full)))

    reject-Since :
        (Post : Unit {0} → Session → Type 0) (e : Failure)
        → Triple Since (reject mac conf peer e) Post (Ends mac conf peer)
    unfolding Since
    reject-Since Post e s h =
        reject-Ends mac conf peer h.2 Post e
          (known mac conf peer s.auth_state s.trace (Since-Known s h)) s (refl, refl, refl, refl)

    Since-Ends : (s : Session) → Since s → Ends mac conf peer s
    unfolding Since
    Since-Ends s h = h.2

    connect-Connected :
        Triple
          (λ s. (s.trace ≡ before) × (s.auth_state ≡ challenge_response))
          connect
          (λ _. Connected)
          Since
    unfolding connect Outcome Since
    connect-Connected s h = elim (Bool-cases s.fw_connects) [
      | inl e ↦ rw (e) (ap (◌∷◌ fw_connected) h.0, h.1)
      | inr e ↦ rw (e) ([], h.0, subst (Good mac conf peer) (sym h.0) good, h.1)
    ]

    module _ (q : FirewallMessage) (requested : Requested mac conf peer request p tcp? udp? q) where
      asked : Asked mac conf peer (fw_connected ∷ before) q
      asked = (before, request, p, tcp?, udp?, refl, full, requested)

      asked-Good : Good mac conf peer (fw_sent q ∷ fw_connected ∷ before)
      asked-Good = (asked, ((request, p, tcp?, udp?, full), good))

      abbrev AskedNow : Session → Type 0
      AskedNow s =
          (s.trace ≡ fw_sent q ∷ fw_connected ∷ before) × (s.auth_state ≡ challenge_response)

      AskedNow-Since : (s : Session) → AskedNow s → Since s
      unfolding Since
      AskedNow-Since s h =
          (fw_sent q ∷ fw_connected ∷ [], h.0, subst (Good mac conf peer) (sym h.0) asked-Good, h.1)

      abbrev GrantedNow : Session → Type 0
      GrantedNow s = Granted mac conf peer s.trace × Good mac conf peer s.trace

      abbrev RepliedNow : FirewallMessage → Session → Type 0
      RepliedNow m s =
          (s.trace ≡ fw_got m ∷ fw_sent q ∷ fw_connected ∷ before)
          × (s.auth_state ≡ challenge_response)

      replied-Good :
          (m : FirewallMessage) (s : Session) → RepliedNow m s → Good mac conf peer s.trace
      replied-Good m s h = subst (Good mac conf peer) (sym h.0) (tt, asked-Good)

      RepliedNow-Since : (m : FirewallMessage) (s : Session) → RepliedNow m s → Since s
      unfolding Since
      RepliedNow-Since m s h =
          (fw_got m ∷ fw_sent q ∷ fw_connected ∷ [], h.0, replied-Good m s h, h.1)

      reply-Granted :
          (m : FirewallMessage) (o : FirewallOperation) (s : Session)
          → m.operation ≡ o
          → RepliedNow m s
          → Outcome (λ _. GrantedNow) Since (reply_result o, s)
      unfolding Outcome
      reply-Granted m ack s e h = ((m, q, fw_connected ∷ before, h.0, e, asked), replied-Good m s h)
      reply-Granted m nack s e h = RepliedNow-Since m s h
      reply-Granted m opens s e h = RepliedNow-Since m s h
      reply-Granted m closes s e h = RepliedNow-Since m s h

      take_reply-Granted :
          (rs : List FwReply) → Triple AskedNow (take_reply rs) (λ _. GrantedNow) Since
      unfolding Outcome Since
      take_reply-Granted [] s h = AskedNow-Since s h
      take_reply-Granted (fw_closed ∷ rs) s h = AskedNow-Since s h
      take_reply-Granted (fw_error ∷ rs) s h = AskedNow-Since s h
      take_reply-Granted (replied m ∷ rs) s h =
          reply-Granted m m.operation (record s { fw_replies = rs; trace = fw_got m ∷ s.trace })
            refl (ap (◌∷◌ (fw_got m)) h.0, h.1)

      send_request-Granted :
          (sends : Bool) (s : Session)
          → AskedNow s
          → Outcome
              (λ _. GrantedNow)
              Since
              (if sends then take_reply s.fw_replies s else (err fw_failed, s))
      unfolding Outcome
      send_request-Granted true s h = take_reply-Granted s.fw_replies s h
      send_request-Granted false s h = AskedNow-Since s h

      exchange-Granted : Triple Connected (exchange q) (λ _. GrantedNow) Since
      unfolding exchange
      exchange-Granted s h =
          send_request-Granted s.fw_sends (record_event (fw_sent q) s)
            (ap (◌∷◌ (fw_sent q)) h.0, h.1)

    check_full-Connected :
        Triple Connected
          (λ s. lift (check (is_full mac conf peer s.auth_state)) s)
          (λ _. Connected)
          (Ends mac conf peer)
    unfolding Outcome
    check_full-Connected s h =
        subst
          (λ a.
            Outcome (λ _. Connected) (Ends mac conf peer)
              (lift (check (is_full mac conf peer a)) s))
          (sym h.1) h

    exchange-Welcome :
        (q : FirewallMessage)
        → Requested mac conf peer request p tcp? udp? q
        → Triple Connected
            (on_error (exchange q) (reject mac conf peer fw_failed))
            (λ _. Welcome)
            (Ends mac conf peer)
    exchange-Welcome q requested =
        Triple-on_error _ _ _ _ (exchange-Granted q requested) Since-Ends (reject-Since _ fw_failed)

    request-Welcome :
        (port_type : PortType)
        → requested_type tcp? udp? ≡ ok port_type
        → (closing : Bool) → (request.operation == close) ≡ closing
        → Triple Connected
            (if closing
              then on_error (close_port peer port_type p) (reject mac conf peer fw_failed)
              else on_error (open_port peer port_type p) (reject mac conf peer fw_failed))
            (λ _. Welcome)
            (Ends mac conf peer)
    unfolding close_port open_port
    request-Welcome port_type e true c = exchange-Welcome (new_close peer port_type p) (
      port_type,
      e,
      ap (λ b. if b then new_close peer port_type p else new_open peer port_type p) (sym c),
    )
    request-Welcome port_type e false c = exchange-Welcome (new_open peer port_type p) (
      port_type,
      e,
      ap (λ b. if b then new_close peer port_type p else new_open peer port_type p) (sym c),
    )

    -- The request goes out only with the exchange behind it, and the stage returns only when the
    -- daemon has acknowledged it.
    pub reconfigure-Welcome :
        (users : List UserId)
        → Triple
            (At before (some request.user) (some request.resource) challenge_response)
            (reconfigure mac conf peer request (port_resource p tcp? udp? users))
            (λ _. Welcome)
            (Ends mac conf peer)
    unfolding reconfigure
    reconfigure-Welcome users =
        Triple-bind _ _ _ _
          (lift-At mac conf peer good (λ port_type. requested_type tcp? udp? ≡ ok port_type)
            (requested_type tcp? udp?) (λ _ e. e))
          (λ port_type s h.
            Triple-bind _ _ _ _
              (Triple-on_error _ _ _ _ connect-Connected Since-Ends
                (reject-Since _ fw_connect_failed))
              (λ _.
                Triple-bind _ _ _ _ check_full-Connected
                  (λ _. request-Welcome port_type h.0 (request.operation == close) refl))
              s (h.1.0, h.1.3))
