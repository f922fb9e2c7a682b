-- ===== src/Server/Protocol/Allowed.antt =====
-- What the trace of a session with letmeind/src/protocol.rs may hold: each message and each request
-- only behind those that entitle the server to it.
use letmein.Base.{ℕ, ◌≡◌, ◌≢◌, ◌⊎◌, Bool, true, some, List, [], ◌∷◌, ◌++◌, if◌then◌else◌, ◌==◌, ok}
use letmein.Base.Bytes.{Bytes}
use letmein.Conf.{
  port_resource, contains_user, ErrorPolicy, always, basic_auth, full_auth, Config, get_key,
  get_resource,
}
use letmein.FwProto.Fields.{ack, PortType, IpAddr}
use letmein.FwProto.Message.{FirewallMessage, new_open, new_close}
use letmein.Proto.Auth.{mac_input}
use letmein.Proto.Message.{zero_auth, UserId, Key, Message}
use letmein.Proto.Operation.{
  Operation, knock, challenge, response, come_in, go_away, close, operation_has_eq,
}
use letmein.Server.Protocol.{requested_type}
use letmein.Server.Session.{Event, got, sent, fw_connected, fw_sent, fw_got}

module _ (mac : Key → Bytes → Bytes) (conf : Config) where
  -- A Knock or a Close whose token is that of the user's key.
  pub record Identified (request : Message) (key : Key) : Type 0 where
    pub is_request : (request.operation ≡ knock) ⊎ (request.operation ≡ close)
    pub key_known : get_key conf request.user ≡ some key
    pub token_ok : request.auth ≡ mac key (mac_input request zero_auth)

  -- The resource is there, the user may use it, and it is not the control port.
  pub record Entitled (request : Message) (p : ℕ) (tcp? udp? : Bool) (users : List UserId)
      : Type 0 where
    pub resource_known : get_resource conf request.resource ≡ some (port_resource p tcp? udp? users)
    pub user_ok : contains_user (port_resource p tcp? udp? users) request.user ≡ true
    pub not_control : p ≢ conf.control_port.port

  -- `c` is a challenge to the request, `answer` the response with its token.
  pub record Answered (request : Message) (key : Key) (c answer : Message) : Type 0 where
    pub c_operation : c.operation ≡ challenge
    pub c_user : c.user ≡ request.user
    pub c_resource : c.resource ≡ request.resource
    pub answer_operation : answer.operation ≡ response
    pub answer_user : answer.user ≡ request.user
    pub answer_resource : answer.resource ≡ request.resource
    pub answer_token : answer.auth ≡ mac key (mac_input answer c.auth)

  -- Behind the exchange so far the client has proved that it knows the key.
  pub record BasicAuth (older : List Event) : Type 0 where
    pub later : List Event
    pub request : Message
    pub key : Key
    pub begins : older ≡ later ++ (got request ∷ [])
    pub identified : Identified request key

  -- Behind the exchange so far it has done so for a fresh challenge, and may use the resource.
  pub record FullAuth (older : List Event) (request : Message) (p : ℕ) (tcp? udp? : Bool)
      : Type 0 where
    pub key : Key
    pub c : Message
    pub answer : Message
    pub users : List UserId
    pub exchanged : older ≡ got answer ∷ sent c ∷ got request ∷ []
    pub identified : Identified request key
    pub entitled : Entitled request p tcp? udp? users
    pub answered : Answered request key c answer

  abbrev pub Challengeable : List Event → Type 0
  Challengeable older =
      (request : Message) × (key : Key) × (p : ℕ) × (tcp? : Bool) × (udp? : Bool) × (users : List
        UserId)
      × (older ≡ got request ∷ [])
      × Identified request key
      × Entitled request p tcp? udp? users

  abbrev pub Authenticated : List Event → Type 0
  Authenticated older =
      (request : Message) × (p : ℕ) × (tcp? : Bool) × (udp? : Bool) × FullAuth older request p tcp?
        udp?

  -- When an error may be reported to the client.
  abbrev pub Reportable : ErrorPolicy → List Event → Type 0
  Reportable always older = Unit
  Reportable basic_auth older = BasicAuth older
  Reportable full_auth older =
      (later : List Event) × (earlier : List Event) × (older ≡ later ++ earlier)
      × Authenticated earlier

  module _ (peer : IpAddr) where
    -- The request that the message and the resource stand for, for the peer's own address.
    abbrev pub Requested : Message → ℕ → Bool → Bool → FirewallMessage → Type 0
    Requested request p tcp? udp? q =
        (port_type : PortType) × (requested_type tcp? udp? ≡ ok port_type)
        × (q ≡ (
            if request.operation == close
            then new_close peer port_type p
            else new_open peer port_type p))

    abbrev pub Asked : List Event → FirewallMessage → Type 0
    Asked older q =
        (before : List Event) × (request : Message) × (p : ℕ) × (tcp? : Bool) × (udp? : Bool)
        × (older ≡ fw_connected ∷ before)
        × FullAuth before request p tcp? udp?
        × Requested request p tcp? udp? q

    -- The daemon has acknowledged the request.
    abbrev pub Granted : List Event → Type 0
    Granted older =
        (reply : FirewallMessage) × (q : FirewallMessage) × (before : List Event) × (older
          ≡ fw_got reply ∷ fw_sent q ∷ before)
        × (reply.operation ≡ ack)
        × Asked before q

    abbrev pub SentOk : Operation → List Event → Type 0
    SentOk challenge older = Challengeable older
    SentOk come_in older = Granted older
    SentOk go_away older = Reportable conf.control_error_policy older
    SentOk knock older = ⊥
    SentOk response older = ⊥
    SentOk close older = ⊥

    abbrev pub Allowed : Event → List Event → Type 0
    Allowed (got m) older = Unit
    Allowed (sent m) older = SentOk m.operation older
    Allowed fw_connected older = Authenticated older
    Allowed (fw_sent q) older = Asked older q
    Allowed (fw_got m) older = Unit

    -- Every event of a trace is allowed behind those before it.
    abbrev pub Good : List Event → Type 0
    Good [] = Unit
    Good (e ∷ older) = Allowed e older × Good older
