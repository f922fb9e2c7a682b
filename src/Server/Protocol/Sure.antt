-- ===== src/Server/Protocol/Sure.antt =====
-- letmeind/src/protocol.rs: the calls of a session do not panic while the random source is good.
use letmein.Base.{
  ◌≡◌, refl, Option, none, some, List, [], ◌∷◌, length, Result, ok, err, panic, Bool, true, false,
  if◌then◌else◌, sym, subst,
}
use letmein.Base.Bytes.{Bytes}
use letmein.Conf.{Config}
use letmein.FwProto.Fields.{IpAddr}
use letmein.Proto.Message.{new, salt_size, auth_size, UserId, ResourceId, Message, Key}
use letmein.Proto.Operation.{Operation, go_away}
use letmein.Server.Protocol.{
  unwrap_or_max, new_msg, send_go_away, reject, may_report, ensure, required,
}
use letmein.Server.Protocol.Honest.{RandomBytes}
use letmein.Server.Safety.{Safe, Always, Safe-continue, Safe-forget}
use letmein.Server.Session.{
  Failure, RxEvent, received, rx_closed, rx_error, rx_timeout, TxEvent, tx_done, tx_error,
  tx_timeout, sent, Session, Run, continue, record_event, take_rx, receive, take_tx, send_msg,
  ◌>>=◌, lift, next_fill, random, fail, dropped,
}

-- The next random bytes are a good salt.
abbrev pub GoodSalt : List (Option Bytes) → Type 0
GoodSalt [] = ⊥
GoodSalt (none ∷ fs) = ⊥
GoodSalt (some f ∷ fs) = RandomBytes salt_size f

-- A salt, the bytes of a challenge and one more salt
abbrev pub GoodRandom : List (Option Bytes) → Type 0
GoodRandom (some f ∷ some g ∷ fs) =
    RandomBytes salt_size f × RandomBytes auth_size g × (length g ≡ auth_size) × GoodSalt fs
GoodRandom fs = ⊥

pub GoodRandom-GoodSalt : (fs : List (Option Bytes)) → GoodRandom fs → GoodSalt fs
GoodRandom-GoodSalt (some f ∷ some g ∷ fs) h = h.0
GoodRandom-GoodSalt (some f ∷ none ∷ fs) h = absurd h
GoodRandom-GoodSalt (some f ∷ []) h = absurd h
GoodRandom-GoodSalt (none ∷ fs) h = absurd h
GoodRandom-GoodSalt [] h = absurd h

-- What a call leaves alone
abbrev pub Kept : Session → Session → Type 0
Kept s s' = (s'.fills ≡ s.fills) × (s'.auth_state ≡ s.auth_state)

abbrev pub AfterKept : {A : Type 0} → Session → A → Session → Type 0
AfterKept s a s' = Kept s s'

take_rx-Safe : (es : List RxEvent) (s : Session) → Safe (AfterKept s) Always (take_rx es s)
take_rx-Safe [] s = tt
take_rx-Safe (received m ∷ es) s = (refl, refl)
take_rx-Safe (rx_closed ∷ es) s = (refl, refl)
take_rx-Safe (rx_error ∷ es) s = tt
take_rx-Safe (rx_timeout ∷ es) s = tt

pub receive-Safe : (s : Session) → Safe (AfterKept s) Always (receive s)
unfolding receive
receive-Safe s = take_rx-Safe s.rx s

take_tx-Safe : (es : List TxEvent) (s : Session) → Safe (AfterKept s) Always (take_tx es s)
take_tx-Safe [] s = tt
take_tx-Safe (tx_done ∷ es) s = (refl, refl)
take_tx-Safe (tx_error ∷ es) s = tt
take_tx-Safe (tx_timeout ∷ es) s = tt

pub send_msg-Safe : (m : Message) (s : Session) → Safe (AfterKept s) Always (send_msg m s)
unfolding send_msg
send_msg-Safe m s = take_tx-Safe s.tx (record_event (sent m) s)

-- The random bytes that are left behind the next
abbrev pub rest_of : List (Option Bytes) → List (Option Bytes)
rest_of [] = []
rest_of (f ∷ fs) = fs

-- A message for the operation, with the random bytes of its salt taken
abbrev pub Salted : Operation → Session → Message → Session → Type 0
Salted operation s m s' =
    (s'.fills ≡ rest_of s.fills) × (s'.auth_state ≡ s.auth_state) × (m.operation ≡ operation)

Salt-Safe :
    (operation : Operation) (user : UserId) (resource : ResourceId) (fs : List (Option Bytes))
    (s : Session)
    → GoodSalt fs
    → Safe
        (λ m s'.
          (s'.fills ≡ rest_of fs) × (s'.auth_state ≡ s.auth_state) × (m.operation ≡ operation))
        Always
        (continue (next_fill fs s) (λ fill. lift (new operation user resource fill)))
unfolding new
Salt-Safe operation user resource [] s h = absurd h
Salt-Safe operation user resource (none ∷ fs) s h = absurd h
Salt-Safe operation user resource (some f ∷ fs) s h = rw h (refl, refl, refl)

module _ (mac : Key → Bytes → Bytes) (conf : Config) (peer : IpAddr) where
  pub new_msg-Safe :
      (operation : Operation) (user : UserId) (resource : ResourceId) (s : Session)
      → GoodSalt s.fills
      → Safe (Salted operation s) Always (new_msg mac conf peer operation user resource s)
  unfolding new_msg random
  new_msg-Safe operation user resource s h = Salt-Safe operation user resource s.fills s h

  go_away-Safe :
      (reported : Bool) (s : Session)
      → GoodSalt s.fills
      → Safe
          (λ _. Always)
          Always
          (if reported
            then (new_msg mac conf peer go_away
                    (unwrap_or_max s.user_id)
                    (unwrap_or_max s.resource_id)
                  >>= send_msg)
                s
            else (ok tt, s))
  go_away-Safe false s h = tt
  go_away-Safe true s h =
      Safe-continue (Salted go_away s) (λ _. Always)
        (new_msg mac conf peer go_away (unwrap_or_max s.user_id) (unwrap_or_max s.resource_id) s)
        send_msg (new_msg-Safe go_away (unwrap_or_max s.user_id) (unwrap_or_max s.resource_id) s h)
        (λ m s' k. Safe-forget (AfterKept s') (send_msg m s') (send_msg-Safe m s'))

  dropped-Safe :
      {A : Type 0} (Post : A → Session → Type 0) (e : Failure)
      (r : Result Failure (Unit {0}) × Session)
      → Safe (λ _. Always) Always r
      → Safe Post Always (continue (dropped r) (λ _. fail e))
  dropped-Safe Post e (ok a, s) h = tt
  dropped-Safe Post e (err x, s) h = tt
  dropped-Safe Post e (panic, s) h = h

  pub reject-Safe :
      {A : Type 0} (Post : A → Session → Type 0) (e : Failure) (s : Session)
      → GoodSalt s.fills
      → Safe Post Always (reject mac conf peer e s)
  unfolding reject send_go_away
  reject-Safe Post e s h =
      dropped-Safe Post e (send_go_away mac conf peer s)
        (go_away-Safe (may_report conf.control_error_policy s.auth_state) s h)

  pub ensured :
      (good : Bool) (e : Failure) (s : Session)
      → GoodSalt s.fills
      → Safe (λ _ s'. s' ≡ s) Always (ensure mac conf peer good e s)
  ensured true e s h = refl
  ensured false e s h = reject-Safe (λ _ s'. s' ≡ s) e s h

  -- The calls that leave the session as it is, each with what follows
  module _ {B : Type 0} (Post : B → Session → Type 0) (s : Session) where
    pub ensure-Safe :
        (good : Bool) (e : Failure) (f : Unit {0} → Run B)
        → GoodSalt s.fills
        → (good ≡ true → Safe Post Always (f tt s))
        → Safe Post Always (continue (ensure mac conf peer good e s) f)
    ensure-Safe true e f h k = k refl
    ensure-Safe false e f h k =
        Safe-continue (λ _. λ _. ⊥) Post (reject mac conf peer e s) f
          (reject-Safe (λ _. λ _. ⊥) e s h) (λ _ s' absurdity. absurd absurdity)

    pub required-Safe :
        {A : Type 0} (found : Option A) (e : Failure) (f : A → Run B)
        → GoodSalt s.fills
        → ((a : A) → found ≡ some a → Safe Post Always (f a s))
        → Safe Post Always (continue (required mac conf peer found e s) f)
    required-Safe none e f h k =
        Safe-continue (λ _. λ _. ⊥) Post (reject mac conf peer e s) f
          (reject-Safe (λ _. λ _. ⊥) e s h) (λ _ s' absurdity. absurd absurdity)
    required-Safe (some a) e f h k = k a refl

    pub lift-Safe :
        {A : Type 0} (r : Result Failure A) (a : A) (f : A → Run B)
        → r ≡ ok a
        → Safe Post Always (f a s)
        → Safe Post Always (continue (lift r s) f)
    lift-Safe r a f e h = subst (λ x. Safe Post Always (continue (lift x s) f)) (sym e) h
