-- ===== src/Server/Protocol/Security.antt =====
-- letmeind/src/protocol.rs: what any session with the server leaves in its trace.
use letmein.Base.{refl, [], ◌∷◌, ◌≡◌, sym, subst, List}
use letmein.Base.Bytes.{Bytes}
use letmein.Conf.{Resource, port_resource, Config}
use letmein.FwProto.Fields.{IpAddr}
use letmein.Proto.Message.{Key, Message}
use letmein.Proto.Operation.{come_in}
use letmein.Server.Logic.{Triple, Triple-bind, Triple-weaken}
use letmein.Server.Protocol.{challenge_client, reconfigure, welcome, run}
use letmein.Server.Protocol.Allowed.{Challengeable, FullAuth, Granted, SentOk, Good}
use letmein.Server.Protocol.Authorising.{Authorised, authorise-Authorised}
use letmein.Server.Protocol.Challenging.{challenge_client-Proved}
use letmein.Server.Protocol.Reconfiguring.{Welcome, reconfigure-Welcome}
use letmein.Server.Protocol.Stages.{receive_initial-Begun}
use letmein.Server.Protocol.Steps.{Ends, Ends-At, new_msg-At, send_msg-At, At, Made}
use letmein.Server.Session.{◌>>◌, got, Event, sent, Session}

module _ (mac : Key → Bytes → Bytes) (conf : Config) (peer : IpAddr) where
  -- The last message of the session is a ComeIn that was due.
  abbrev pub Welcomed : Session → Type 0
  Welcomed s =
      (before : List Event) × (m : Message) × (s.trace ≡ sent m ∷ before)
      × (m.operation ≡ come_in)
      × Granted mac conf peer before
      × Good mac conf peer s.trace

  welcome-Welcomed :
      (msg : Message)
      → Triple
          (Welcome mac conf peer)
          (welcome mac conf peer msg)
          (λ _. Welcomed)
          (Ends mac conf peer)
  unfolding welcome
  welcome-Welcomed msg s h =
      Triple-bind _
        {Mid = λ m s'.
          Made come_in msg.user msg.resource m × At s.trace s.user_id s.resource_id s.auth_state s'}
        (λ _. Welcomed) _ _ (new_msg-At mac conf peer h.1 come_in msg.user msg.resource)
        (λ m s' k.
          let fine = subst (λ o. SentOk mac conf peer o s.trace) (sym k.0.0) h.0 in
          Triple-weaken _ (λ _. Welcomed) _ (send_msg-At mac conf peer h.1 m fine)
            (λ _ s'' k'. (s.trace, m, k'.0, k.0.0, h.0, Ends-At mac conf peer (fine, h.1) s'' k'.0))
            s' k.1)
        s (refl, refl, refl, refl)

  after_authorise-Welcomed :
      (msg : Message) (key : Key) (resource : Resource)
      → Triple
          (Authorised mac conf peer msg (key, resource))
          (challenge_client mac conf peer msg key
            >> (reconfigure mac conf peer msg resource >> welcome mac conf peer msg))
          (λ _. Welcomed)
          (Ends mac conf peer)
  after_authorise-Welcomed msg key (port_resource p tcp? udp? users) s h =
      let found : Challengeable mac conf (got msg ∷ []) =
        (msg, key, p, tcp?, udp?, users, refl, h.0.0, h.0.1) in
      Triple-bind _ (λ _. Welcomed) _ _ (challenge_client-Proved mac conf peer msg key h.0.0 found)
        (λ _ s' k.
          let before = got k.1 ∷ sent k.0 ∷ got msg ∷ [] in
          let full : FullAuth mac conf before msg p tcp? udp? = record {
            key = key;
            c = k.0;
            answer = k.1;
            users = users;
            exchanged = refl;
            identified = h.0.0;
            entitled = h.0.1;
            answered = k.2;
          } in
          let fine =
            subst (λ o. SentOk mac conf peer o (got msg ∷ [])) (sym k.2.c_operation) found in
          Triple-bind _ (λ _. Welcomed) _ _
            (reconfigure-Welcome mac conf peer before msg p tcp? udp? full (tt, (fine, (tt, tt)))
              users)
            (λ _. welcome-Welcomed msg) s' k.3)
        s h.1

  pub run-Welcomed :
      Triple (λ s. s.trace ≡ []) (run mac conf peer) (λ _. Welcomed) (Ends mac conf peer)
  unfolding run
  run-Welcomed =
      Triple-bind _ (λ _. Welcomed) _ _ (receive_initial-Begun mac conf peer)
        (λ msg s h.
          Triple-bind _ (λ _. Welcomed) _ _ (authorise-Authorised mac conf peer msg h.0)
            (λ (key, resource). after_authorise-Welcomed msg key resource) s h.1)
