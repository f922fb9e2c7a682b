-- ===== src/Client.antt =====
-- letmein/src/client.rs: the client's connection to the server. Resolving and connecting is one
-- outcome; what the socket then gives is a script that the session consumes, and `outgoing` holds
-- the messages that were sent, newest first.
use letmein.Base.{
  Bool, not, Option, none, some, List, [], ◌∷◌, if◌then◌else◌, ◌==◌, Result, ok, err, panic, check,
}
use letmein.Base.Bytes.{Bytes}
use letmein.Conf.{ControlPort}
use letmein.Firewall.Server.{reply}
use letmein.FwProto.Fields.{tcp, udp}
use letmein.Proto.Message.{Message}
use letmein.Proto.Operation.{operation_has_eq, Operation, go_away}
use letmein.Server.Session.{
  RxEvent, received, rx_closed, rx_error, rx_timeout, TxEvent, tx_done, tx_error, tx_timeout,
}
pub mod Sequence
pub mod Agreement
pub mod LetIn
pub mod Modes
pub mod Resolver

-- The errors, in place of their texts.
pub data ClientError : Type 0 where
  init_failed receive_failed receive_timed_out terminated : ClientError
  rejected unexpected_operation send_failed send_timed_out : ClientError
  no_key no_resource : ClientError

pub record Link : Type 0 where
  pub incoming : List RxEvent
  pub taken : List TxEvent
  pub client_fills : List (Option Bytes)
  pub outgoing : List Message

abbrev pub Step : Type 0 → Type 0
Step A = Link → Result ClientError A × Link

abbrev pub next_step :
    {A B : Type 0} → Result ClientError A × Link → (A → Step B) → Result ClientError B × Link
next_step (ok a, l) f = f a l
next_step (err e, l) f = (err e, l)
next_step (panic, l) f = (panic, l)

infixl 5 ◌>>=◌ ◌>>◌
abbrev pub ◌>>=◌ : {A B : Type 0} → Step A → (A → Step B) → Step B
m >>= f = λ l. next_step (m l) f

abbrev pub ◌>>◌ : {B : Type 0} → Step (Unit {0}) → Step B → Step B
m >> k = m >>= λ _. k

abbrev pub lift : {A : Type 0} → Result ClientError A → Step A
lift r l = (r, l)

-- `Client::new`: where the host is reached, exactly one of TCP and UDP must be chosen.
unfoldable pub new_client : Bool → ControlPort → Result ClientError (Unit {0})
new_client connects port =
    if not connects
    then err init_failed
    else if port.tcp
    then check (not port.udp)
    else check port.udp

abbrev take_incoming : List RxEvent → Step (Option Message)
take_incoming [] l = (err receive_timed_out, l)
take_incoming (rx_timeout ∷ es) l = (err receive_timed_out, record l { incoming = es })
take_incoming (rx_error ∷ es) l = (err receive_failed, record l { incoming = es })
take_incoming (rx_closed ∷ es) l = (ok none, record l { incoming = es })
take_incoming (received m ∷ es) l = (ok (some m), record l { incoming = es })

-- `Client::recv_msg`
unfoldable pub client_recv : Step (Option Message)
client_recv l = take_incoming l.incoming l

abbrev pub expect : Operation → Option Message → Result ClientError Message
expect expected none = err terminated
expect expected (some reply) =
    if reply.operation == go_away
    then err rejected
    else if not (reply.operation == expected)
    then err unexpected_operation
    else ok reply

-- `Client::recv_specific_msg`
unfoldable pub recv_specific_msg : Operation → Step Message
recv_specific_msg expected = client_recv >>= λ reply. lift (expect expected reply)

abbrev take_taken : List TxEvent → Step (Unit {0})
take_taken [] l = (err send_timed_out, l)
take_taken (tx_timeout ∷ es) l = (err send_timed_out, record l { taken = es })
take_taken (tx_error ∷ es) l = (err send_failed, record l { taken = es })
take_taken (tx_done ∷ es) l = (ok tt, record l { taken = es })

-- `Client::send_msg`
unfoldable pub client_send : Message → Step (Unit {0})
client_send m l = take_taken l.taken (record l { outgoing = m ∷ l.outgoing })

abbrev pop_fill : List (Option Bytes) → Step (Option Bytes)
pop_fill [] l = (ok none, l)
pop_fill (f ∷ fs) l = (ok f, record l { client_fills = fs })

-- The next `getrandom`.
unfoldable pub client_random : Step (Option Bytes)
client_random l = pop_fill l.client_fills l
