-- ===== src/Server/Protocol/Claims.antt =====
-- letmeind/src/protocol.rs: what the trace of any session with the server may hold.
use mathlib.Core.List.{append_assoc}
use letmein.Base.{
  ◌≡◌, subst, ◌≢◌, List, [], ◌∷◌, ◌++◌, Result, ok, err, panic, ℕ, refl, sym, ap, ◌∙◌, Bool,
}
use letmein.Base.Bytes.{Bytes}
use letmein.Conf.{always, Config, ErrorPolicy, basic_auth, full_auth}
use letmein.FwProto.Fields.{IpAddr}
use letmein.FwProto.Message.{FirewallMessage}
use letmein.Proto.Message.{Key, Message}
use letmein.Proto.Operation.{Operation, come_in, go_away, knock, challenge, response, close}
use letmein.Server.Logic.{Outcome, Triple-weaken, Outcome-end}
use letmein.Server.Protocol.{run}
use letmein.Server.Protocol.Allowed.{
  BasicAuth, Reportable, Asked, Granted, SentOk, Allowed, Good, FullAuth,
}
use letmein.Server.Protocol.Security.{Welcomed, run-Welcomed}
use letmein.Server.Protocol.Steps.{Ends}
use letmein.Server.Session.{Failure, Event, sent, fw_sent, Session, got, fw_connected, fw_got}

module _ (mac : Key → Bytes → Bytes) (conf : Config) (peer : IpAddr) where
  Welcomed-Ends : (s : Session) → Welcomed mac conf peer s → Ends mac conf peer s
  Welcomed-Ends s h = h.5

  -- The trace that a run leaves.
  abbrev pub trace_of : Session → List Event
  trace_of s = (run mac conf peer s).1.trace

  run-Good : (s : Session) → s.trace ≡ [] → Good mac conf peer (trace_of s)
  run-Good s h = Outcome-end (Ends mac conf peer) (run mac conf peer s) (
      Triple-weaken _ (λ _. Ends mac conf peer) (run mac conf peer) (run-Welcomed mac conf peer)
        (λ _ s' k. Welcomed-Ends s' k) s h)

  Good-Allowed :
      (later : List Event) (e : Event) (older : List Event)
      → Good mac conf peer (later ++ e ∷ older)
      → Allowed mac conf peer e older
  Good-Allowed [] e older g = g.0
  Good-Allowed (x ∷ later) e older g = Good-Allowed later e older g.1

  run-Allowed :
      (s : Session) (later : List Event) (e : Event) (older : List Event)
      → s.trace ≡ []
      → trace_of s ≡ later ++ e ∷ older
      → Allowed mac conf peer e older
  run-Allowed s later e older start at =
      Good-Allowed later e older (subst (Good mac conf peer) at (run-Good s start))

  -- Whatever the client, the network, the random source and the firewall daemon do: when the server
  -- asks the daemon for a port, the session so far is exactly a Knock or a Close with the token of
  -- the user's key, a challenge, the response with the token for that challenge from the same user
  -- to the same resource, and the connection to the daemon; the user may use the resource, which is
  -- not the control port; and the request is for the peer's address and the resource's port.
  pub request_authenticated :
      (s : Session) (later : List Event) (q : FirewallMessage) (older : List Event)
      → s.trace ≡ []
      → trace_of s ≡ later ++ fw_sent q ∷ older
      → Asked mac conf peer older q
  request_authenticated s later q older start at = run-Allowed s later (fw_sent q) older start at

  FullAuth-BasicAuth :
      (later older before : List Event) (request : Message) (p : ℕ) (tcp? udp? : Bool)
      → older ≡ later ++ before
      → FullAuth mac conf before request p tcp? udp?
      → BasicAuth mac conf older
  FullAuth-BasicAuth later older before request p tcp? udp? at full =
      let end = got full.answer ∷ sent full.c ∷ [] in
      record {
        later = later ++ end;
        request = request;
        key = full.key;
        begins =
            at ∙ ap (◌++◌ later) full.exchanged ∙ sym (append_assoc later end (got request ∷ []));
        identified = full.identified;
      }

  Reportable-basic :
      (policy : ErrorPolicy) (older : List Event)
      → policy ≢ always
      → Reportable mac conf policy older
      → BasicAuth mac conf older
  Reportable-basic always older hidden h = absurd (hidden refl)
  Reportable-basic basic_auth older hidden h = h
  Reportable-basic full_auth older hidden (later, earlier, at, (request, p, tcp?, udp?, full)) =
      FullAuth-BasicAuth later older earlier request p tcp? udp? at full

  SentOk-basic :
      (o : Operation) (older : List Event)
      → conf.control_error_policy ≢ always
      → SentOk mac conf peer o older
      → BasicAuth mac conf older
  SentOk-basic challenge older hidden
        (request, key, p, tcp?, udp?, users, at, identified, entitled) =
      record { later = []; request = request; key = key; begins = at; identified = identified }
  SentOk-basic come_in older hidden
        (reply, q, before, at, acked, (b, request, p, tcp?, udp?, connected, full, requested)) =
      FullAuth-BasicAuth (fw_got reply ∷ fw_sent q ∷ fw_connected ∷ []) older b request p tcp? udp?
        (at ∙ ap (λ x. fw_got reply ∷ fw_sent q ∷ x) connected) full
  SentOk-basic go_away older hidden h = Reportable-basic conf.control_error_policy older hidden h
  SentOk-basic knock older hidden h = absurd h
  SentOk-basic response older hidden h = absurd h
  SentOk-basic close older hidden h = absurd h

  -- Unless the policy is to report always, the server sends nothing before it has received a Knock
  -- or a Close with the token of the user's key.
  pub silent_before_auth :
      (s : Session) (later : List Event) (m : Message) (older : List Event)
      → s.trace ≡ []
      → conf.control_error_policy ≢ always
      → trace_of s ≡ later ++ sent m ∷ older
      → BasicAuth mac conf older
  silent_before_auth s later m older start hidden at =
      SentOk-basic m.operation older hidden (run-Allowed s later (sent m) older start at)

  -- A GoAway goes out only where the policy allows it: with `full_auth` only behind a whole
  -- challenge and response.
  pub go_away-Reportable :
      (s : Session) (later : List Event) (m : Message) (older : List Event)
      → s.trace ≡ []
      → m.operation ≡ go_away
      → trace_of s ≡ later ++ sent m ∷ older
      → Reportable mac conf conf.control_error_policy older
  go_away-Reportable s later m older start op at =
      subst (λ o. SentOk mac conf peer o older) op (run-Allowed s later (sent m) older start at)

  Outcome-ok :
      (x : Result Failure (Unit {0}) × Session)
      → Outcome (λ _. Welcomed mac conf peer) (Ends mac conf peer) x
      → x.0 ≡ ok tt
      → Welcomed mac conf peer x.1
  unfolding Outcome
  Outcome-ok (ok tt, s) h e = h
  Outcome-ok (err f, s) h e = cc
  Outcome-ok (panic, s) h e = cc

  -- The server's run succeeds only when its last message is a ComeIn, right behind the daemon's
  -- acknowledgement of an authenticated request.
  pub run-come_in :
      (s : Session)
      → s.trace ≡ []
      → (run mac conf peer s).0 ≡ ok tt
      → (m : Message) × (before : List Event) × (trace_of s ≡ sent m ∷ before)
        × (m.operation ≡ come_in)
        × Granted mac conf peer before
  run-come_in s start returned =
      let w = Outcome-ok (run mac conf peer s) (run-Welcomed mac conf peer s start) returned in
      (w.1, w.0, w.2, w.3, w.4)
