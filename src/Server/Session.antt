-- ===== src/Server/Session.antt =====
-- What letmeind/src/protocol.rs works on: the protocol's own state, the connection to the client
-- (letmeind/src/server.rs, `ConnectionOps`), the firewall daemon's socket and the random source.
-- The answers of the last three are scripts that the session consumes; `trace` records what was
-- received and sent, newest first.
use letmein.Base.{Bool, Option, none, some, List, [], ◌∷◌, Result, ok, err, panic}
use letmein.Base.Bytes.{Bytes}
use letmein.FwProto.Message.{FirewallMessage}
use letmein.Proto.Message.{UserId, ResourceId, Message}

pub data AuthState : Type 0 where
  not_auth basic_authenticated challenge_response : AuthState

-- The errors of `Protocol` and of `FirewallClient`, in place of their texts.
pub data Failure : Type 0 where
  rx_timed_out rx_failed disconnected bad_operation user_mismatch resource_mismatch : Failure
  unknown_user knock_auth_failed unknown_resource not_allowed uses_control_port : Failure
  tx_timed_out tx_failed response_auth_failed fw_connect_failed fw_failed fw_rejected : Failure

-- What `timeout(conn.recv_msg())` returns.
pub data RxEvent : Type 0 where
  received : Message → RxEvent
  rx_closed rx_error rx_timeout : RxEvent

-- What `timeout(conn.send_msg(msg))` returns.
pub data TxEvent : Type 0 where
  tx_done tx_error tx_timeout : TxEvent

-- What `FirewallMessage::recv` returns.
pub data FwReply : Type 0 where
  replied : FirewallMessage → FwReply
  fw_closed fw_error : FwReply

pub data Event : Type 0 where
  got sent : Message → Event
  fw_connected : Event
  fw_sent fw_got : FirewallMessage → Event

pub record Session : Type 0 where
  pub user_id : Option UserId
  pub resource_id : Option ResourceId
  pub auth_state : AuthState
  pub rx : List RxEvent
  pub tx : List TxEvent
  pub fills : List (Option Bytes)
  pub fw_connects : Bool
  pub fw_sends : Bool
  pub fw_replies : List FwReply
  pub trace : List Event

abbrev pub Run : Type 0 → Type 0
Run A = Session → Result Failure A × Session

abbrev pub continue :
    {A B : Type 0} → Result Failure A × Session → (A → Run B) → Result Failure B × Session
continue (ok a, s) f = f a s
continue (err e, s) f = (err e, s)
continue (panic, s) f = (panic, s)

infixl 5 ◌>>=◌ ◌>>◌
abbrev pub ◌>>=◌ : {A B : Type 0} → Run A → (A → Run B) → Run B
m >>= f = λ s. continue (m s) f

abbrev pub ◌>>◌ : {B : Type 0} → Run (Unit {0}) → Run B → Run B
m >> k = m >>= λ _. k

abbrev pub pure : {A : Type 0} → A → Run A
pure a s = (ok a, s)

abbrev pub fail : {A : Type 0} → Failure → Run A
fail e s = (err e, s)

-- A call that does not touch the session.
abbrev pub lift : {A : Type 0} → Result Failure A → Run A
lift r s = (r, s)

-- `let _ = m`: an error is dropped, a panic is not.
abbrev pub dropped : Result Failure (Unit {0}) × Session → Result Failure (Unit {0}) × Session
dropped (ok _, s) = (ok tt, s)
dropped (err _, s) = (ok tt, s)
dropped (panic, s) = (panic, s)

abbrev pub ignore : Run (Unit {0}) → Run (Unit {0})
ignore m s = dropped (m s)

-- `if let Err(e) = m { handler }`
abbrev pub handled :
    Result Failure (Unit {0}) × Session → Run (Unit {0}) → Result Failure (Unit {0}) × Session
handled (ok _, s) handler = (ok tt, s)
handled (err _, s) handler = handler s
handled (panic, s) handler = (panic, s)

abbrev pub on_error : Run (Unit {0}) → Run (Unit {0}) → Run (Unit {0})
on_error m handler s = handled (m s) handler

abbrev pub record_event : Event → Session → Session
record_event e s = record s { trace = e ∷ s.trace }

abbrev pub take_rx : List RxEvent → Run (Option Message)
take_rx [] s = (err rx_timed_out, s)
take_rx (rx_timeout ∷ es) s = (err rx_timed_out, record s { rx = es })
take_rx (rx_error ∷ es) s = (err rx_failed, record s { rx = es })
take_rx (rx_closed ∷ es) s = (ok none, record s { rx = es })
take_rx (received m ∷ es) s = (ok (some m), record s { rx = es; trace = got m ∷ s.trace })

-- `timeout(control_timeout, conn.recv_msg())`; with no event left the peer is silent.
unfoldable pub receive : Run (Option Message)
receive s = take_rx s.rx s

abbrev pub take_tx : List TxEvent → Run (Unit {0})
take_tx [] s = (err tx_timed_out, s)
take_tx (tx_timeout ∷ es) s = (err tx_timed_out, record s { tx = es })
take_tx (tx_error ∷ es) s = (err tx_failed, record s { tx = es })
take_tx (tx_done ∷ es) s = (ok tt, record s { tx = es })

-- `Protocol::send_msg`. A message whose transmission fails counts as sent.
unfoldable pub send_msg : Message → Run (Unit {0})
send_msg m s = take_tx s.tx (record_event (sent m) s)

abbrev pub next_fill : List (Option Bytes) → Run (Option Bytes)
next_fill [] s = (ok none, s)
next_fill (f ∷ fs) s = (ok f, record s { fills = fs })

-- The next `getrandom`.
unfoldable pub random : Run (Option Bytes)
random s = next_fill s.fills s
