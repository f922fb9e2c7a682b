-- ===== src/Server/Protocol/Steps.antt =====
-- The single steps of a session of letmeind/src/protocol.rs, in the logic of `Server.Logic`.
use letmein.Base.{
  ◌≡◌, Option, none, some, List, ◌∷◌, ok, sym, ap, subst, [], arith, err, panic, refl, Result,
}
use letmein.Base.Bytes.{Bytes}
use letmein.Conf.{Config}
use letmein.FwProto.Fields.{IpAddr}
use letmein.Proto.Message.{UserId, ResourceId, Key, Message, new}
use letmein.Proto.Operation.{Operation}
use letmein.Server.Logic.{Outcome, Triple, Triple-bind}
use letmein.Server.Protocol.{new_msg}
use letmein.Server.Protocol.Allowed.{SentOk, Good}
use letmein.Server.Session.{
  AuthState, Failure, Event, got, sent, Session, receive, send_msg, random, received, rx_closed,
  rx_error, rx_timeout, tx_done, tx_error, tx_timeout, lift, RxEvent, TxEvent, record_event,
  take_rx, take_tx, next_fill,
}

-- The state of the session, up to the scripts of the environment.
abbrev pub At : List Event → Option UserId → Option ResourceId → AuthState → Session → Type 0
At t u r a s = (s.trace ≡ t) × (s.user_id ≡ u) × (s.resource_id ≡ r) × (s.auth_state ≡ a)

-- `m` is what `Message::new` makes.
abbrev pub Made : Operation → UserId → ResourceId → Message → Type 0
Made operation user resource m =
    (m.operation ≡ operation) × (m.user ≡ user) × (m.resource ≡ resource)

new-Made :
    (operation : Operation) (user : UserId) (resource : ResourceId) (fill : Option Bytes)
    {m : Message}
    → new {E = Failure} operation user resource fill ≡ ok m
    → Made operation user resource m
unfolding new
new-Made operation user resource fill {m} h = ground arith

abbrev pub with_got : Option Message → List Event → List Event
with_got none t = t
with_got (some m) t = got m ∷ t

module _ (mac : Key → Bytes → Bytes) (conf : Config) (peer : IpAddr) where
  -- The trace is good when a call ends without a result.
  abbrev pub Ends : Session → Type 0
  Ends s = Good mac conf peer s.trace

  pub Ends-At : {t : List Event} (good : Good mac conf peer t) (s : Session) → s.trace ≡ t → Ends s
  Ends-At good s h = subst (Good mac conf peer) (sym h) good

  module _ {t : List Event} {u : Option UserId} {r : Option ResourceId} {a : AuthState}
      (good : Good mac conf peer t) where
    next_fill-At :
        (fills : List (Option Bytes)) → Triple (At t u r a) (next_fill fills) (λ _. At t u r a) Ends
    unfolding Outcome
    next_fill-At [] s h = h
    next_fill-At (f ∷ fs) s h = h

    pub random-At : Triple (At t u r a) random (λ _. At t u r a) Ends
    unfolding random
    random-At s h = next_fill-At s.fills s h

    take_rx-At :
        (rx : List RxEvent) → Triple (At t u r a) (take_rx rx) (λ m. At (with_got m t) u r a) Ends
    unfolding Outcome
    take_rx-At [] s h = Ends-At good s h.0
    take_rx-At (rx_timeout ∷ es) s h = Ends-At good s h.0
    take_rx-At (rx_error ∷ es) s h = Ends-At good s h.0
    take_rx-At (rx_closed ∷ es) s h = h
    take_rx-At (received m ∷ es) s h = (ap (◌∷◌ (got m)) h.0, h.1, h.2, h.3)

    pub receive-At : Triple (At t u r a) receive (λ m. At (with_got m t) u r a) Ends
    unfolding receive
    receive-At s h = take_rx-At s.rx s h

    take_tx-At : (tx : List TxEvent) → Triple (At t u r a) (take_tx tx) (λ _. At t u r a) Ends
    unfolding Outcome
    take_tx-At [] s h = Ends-At good s h.0
    take_tx-At (tx_timeout ∷ es) s h = Ends-At good s h.0
    take_tx-At (tx_error ∷ es) s h = Ends-At good s h.0
    take_tx-At (tx_done ∷ es) s h = h

    -- A call without effects: what is known of its result.
    pub lift-At :
        {A : Type 0} (P : A → Type 0) (x : Result Failure A)
        → ((y : A) → x ≡ ok y → P y)
        → Triple (At t u r a) (lift x) (λ y s. P y × At t u r a s) Ends
    unfolding Outcome
    lift-At P (ok y) k s h = (k y refl, h)
    lift-At P (err e) k s h = Ends-At good s h.0
    lift-At P panic k s h = Ends-At good s h.0

    pub new_msg-At :
        (operation : Operation) (user : UserId) (resource : ResourceId)
        → Triple
            (At t u r a)
            (new_msg mac conf peer operation user resource)
            (λ m s. Made operation user resource m × At t u r a s)
            Ends
    unfolding new_msg
    new_msg-At operation user resource =
        Triple-bind Ends (λ m s. Made operation user resource m × At t u r a s) random
          (λ fill. lift (new operation user resource fill)) random-At
          (λ fill.
            lift-At (Made operation user resource) (new operation user resource fill)
              (λ m. new-Made operation user resource fill))

  module _ {t : List Event} {u : Option UserId} {r : Option ResourceId} {a : AuthState}
      (good : Good mac conf peer t) where
    pub send_msg-At :
        (m : Message)
        → SentOk mac conf peer m.operation t
        → Triple (At t u r a) (send_msg m) (λ _. At (sent m ∷ t) u r a) Ends
    unfolding send_msg
    send_msg-At m fine s h =
        take_tx-At (fine, good) s.tx (record_event (sent m) s)
          (ap (◌∷◌ (sent m)) h.0, h.1, h.2, h.3)
