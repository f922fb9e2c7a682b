-- ===== src/Server/Protocol/Stages.antt =====
-- The stages of `run` in letmeind/src/protocol.rs: the trace behind each of them.
use letmein.Base.{◌≡◌, refl, ◌⊎◌, true, ◌||◌, Option, none, some, List, [], ◌∷◌, ◌++◌, arith, ◌==◌}
use letmein.Base.Bytes.{Bytes}
use letmein.Conf.{ErrorPolicy, always, basic_auth, full_auth, Config}
use letmein.FwProto.Fields.{IpAddr}
use letmein.Proto.Message.{Key, Message}
use letmein.Proto.Operation.{operation_has_eq, knock, close}
use letmein.Server.Logic.{Triple, Triple-bind, Triple-step, Triple-fail}
use letmein.Server.Protocol.{may_report, check_initial, identify, receive_initial}
use letmein.Server.Protocol.Allowed.{BasicAuth, Authenticated, Reportable}
use letmein.Server.Protocol.Rejection.{Reports, ensure-At}
use letmein.Server.Protocol.Steps.{At, with_got, Ends, Ends-At, receive-At}
use letmein.Server.Session.{
  ◌>>◌, AuthState, not_auth, basic_authenticated, challenge_response, bad_operation, Event, got,
  Session, pure, disconnected,
}

module _ (mac : Key → Bytes → Bytes) (conf : Config) (peer : IpAddr) where
  abbrev pub IsRequest : Message → Type 0
  IsRequest msg = (msg.operation ≡ knock) ⊎ (msg.operation ≡ close)

  is_request_lem :
      (msg : Message) → (msg.operation == knock || msg.operation == close) ≡ true → IsRequest msg
  is_request_lem msg h = ground (
    arith,
    operation_has_eq.same_iff msg.operation knock,
    operation_has_eq.same_iff msg.operation close,
  )

  -- What the server's state says of the exchange so far.
  abbrev pub Known : AuthState → List Event → Type 0
  Known not_auth t = Unit {0}
  Known basic_authenticated t = BasicAuth mac conf t
  Known challenge_response t =
      BasicAuth mac conf t
      × ((later : List Event) × (earlier : List Event) × (t ≡ later ++ earlier)
          × Authenticated mac conf earlier)

  Known-Reportable :
      (policy : ErrorPolicy) (a : AuthState) (t : List Event)
      → Known a t
      → may_report policy a ≡ true
      → Reportable mac conf policy t
  Known-Reportable always a t k h = tt
  Known-Reportable basic_auth not_auth t k h = cc
  Known-Reportable basic_auth basic_authenticated t k h = k
  Known-Reportable basic_auth challenge_response t k h = k.0
  Known-Reportable full_auth not_auth t k h = cc
  Known-Reportable full_auth basic_authenticated t k h = cc
  Known-Reportable full_auth challenge_response t k h = k.1

  pub known : (a : AuthState) (t : List Event) → Known a t → Reports mac conf peer t a
  known a t k = Known-Reportable conf.control_error_policy a t k

  abbrev Initial : Message → Session → Type 0
  Initial msg s = IsRequest msg × At (got msg ∷ []) none none not_auth s

  check_initial-Initial :
      (m : Option Message)
      → Triple
          (At (with_got m []) none none not_auth)
          (check_initial mac conf peer m)
          Initial
          (Ends mac conf peer)
  check_initial-Initial none =
      Triple-fail _ Initial disconnected (λ s h. Ends-At mac conf peer tt s h.0)
  check_initial-Initial (some msg) =
      Triple-bind _ _ _ _
        (ensure-At mac conf peer (tt, tt) (msg.operation == knock || msg.operation == close)
          bad_operation (known not_auth (got msg ∷ []) tt))
        (λ _. Triple-step _ Initial msg (λ s. s) (λ s h. (is_request_lem msg h.0, h.1)))

  -- Behind the initial message.
  abbrev pub Begun : Message → Session → Type 0
  Begun msg s = IsRequest msg × At (got msg ∷ []) (some msg.user) (some msg.resource) not_auth s

  identify-Begun :
      (msg : Message)
      → Triple (Initial msg) (identify mac conf peer msg >> pure msg) Begun (Ends mac conf peer)
  identify-Begun msg =
      Triple-step _ Begun msg
        (λ s. record s { user_id = some msg.user; resource_id = some msg.resource })
        (λ s h. (h.0, (h.1.0, refl, refl, h.1.3)))

  pub receive_initial-Begun :
      Triple (λ s. s.trace ≡ []) (receive_initial mac conf peer) Begun (Ends mac conf peer)
  unfolding receive_initial
  receive_initial-Begun s h =
      Triple-bind _ _ _ _ (receive-At mac conf peer tt)
        (λ m. Triple-bind _ _ _ _ (check_initial-Initial m) identify-Begun)
        (record s { user_id = none; resource_id = none; auth_state = not_auth })
        (h, refl, refl, refl)
