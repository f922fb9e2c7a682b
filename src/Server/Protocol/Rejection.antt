-- ===== src/Server/Protocol/Rejection.antt =====
-- The early returns of letmeind/src/protocol.rs: a GoAway where the policy allows it, then the error.
use letmein.Base.{
  ◌≡◌, refl, sym, ap, ◌∙◌, subst, inl, inr, Bool, true, false, Option, none, some, List, Bool-cases,
  Result, ok, err, panic,
}
use letmein.Base.Bytes.{Bytes}
use letmein.Conf.{Config}
use letmein.FwProto.Fields.{IpAddr}
use letmein.Proto.Message.{UserId, ResourceId, Key, Message}
use letmein.Proto.Operation.{go_away}
use letmein.Server.Logic.{Outcome, Triple, Triple-bind, Triple-weaken}
use letmein.Server.Protocol.{
  unwrap_or_max, may_report, new_msg, send_go_away, reject, ensure, required,
}
use letmein.Server.Protocol.Allowed.{Reportable, SentOk, Good}
use letmein.Server.Protocol.Steps.{At, Made, Ends, Ends-At, new_msg-At, send_msg-At}
use letmein.Server.Session.{
  ◌>>=◌, AuthState, Failure, Event, Session, continue, fail, dropped, send_msg,
}

module _ (mac : Key → Bytes → Bytes) (conf : Config) (peer : IpAddr) where
  -- What the policy lets the server report in its state is reportable.
  abbrev pub Reports : List Event → AuthState → Type 0
  Reports t a =
      may_report conf.control_error_policy a ≡ true
      → Reportable mac conf conf.control_error_policy t

  Outcome-dropped :
      (x : Result Failure (Unit {0}) × Session)
      → Outcome (λ _. Ends mac conf peer) (Ends mac conf peer) x
      → {A : Type 0} (Post : A → Session → Type 0) (e : Failure)
      → Outcome Post (Ends mac conf peer) (continue (dropped x) (λ _. fail e))
  unfolding Outcome
  Outcome-dropped (ok _, s) h Post e = h
  Outcome-dropped (err _, s) h Post e = h
  Outcome-dropped (panic, s) h Post e = h

  module _ {t : List Event} {u : Option UserId} {r : Option ResourceId} {a : AuthState}
      (good : Good mac conf peer t) where
    send-Made-Ends :
        (user : UserId) (resource : ResourceId) (m : Message)
        → Reportable mac conf conf.control_error_policy t
        → Triple
            (λ s. Made go_away user resource m × At t u r a s)
            (send_msg m)
            (λ _. Ends mac conf peer)
            (Ends mac conf peer)
    send-Made-Ends user resource m reportable s h =
        let fine = subst (λ o. SentOk mac conf peer o t) (sym h.0.0) reportable in
        Triple-weaken (Ends mac conf peer) (λ _. Ends mac conf peer) (send_msg m)
          (send_msg-At mac conf peer good m fine)
          (λ _ s' k. Ends-At mac conf peer (fine, good) s' k.0) s h.1

    go_away-Ends :
        (user : UserId) (resource : ResourceId)
        → Reportable mac conf conf.control_error_policy t
        → Triple
            (At t u r a)
            (new_msg mac conf peer go_away user resource >>= send_msg)
            (λ _. Ends mac conf peer)
            (Ends mac conf peer)
    go_away-Ends user resource reportable =
        Triple-bind (Ends mac conf peer) (λ _. Ends mac conf peer)
          (new_msg mac conf peer go_away user resource) send_msg
          (new_msg-At mac conf peer good go_away user resource)
          (λ m. send-Made-Ends user resource m reportable)

    pub send_go_away-Ends :
        Reports t a
        → Triple
            (At t u r a)
            (send_go_away mac conf peer)
            (λ _. Ends mac conf peer)
            (Ends mac conf peer)
    unfolding send_go_away Outcome
    send_go_away-Ends reports s h =
        elim (Bool-cases (may_report conf.control_error_policy s.auth_state)) [
          | inl e ↦ rw (e) (
              go_away-Ends (unwrap_or_max s.user_id) (unwrap_or_max s.resource_id)
                (reports (ap (may_report conf.control_error_policy) (sym h.3) ∙ e)) s h)
          | inr e ↦ rw (e) (Ends-At mac conf peer good s h.0)
        ]

    -- An early return leaves a good trace; there is no result that it could return.
    pub reject-Ends :
        {A : Type 0} (Post : A → Session → Type 0) (e : Failure)
        → Reports t a
        → Triple (At t u r a) (reject mac conf peer e) Post (Ends mac conf peer)
    unfolding reject
    reject-Ends Post e reports s h =
        Outcome-dropped (send_go_away mac conf peer s) (send_go_away-Ends reports s h) Post e

    pub ensure-At :
        (b : Bool) (e : Failure)
        → Reports t a
        → Triple
            (At t u r a)
            (ensure mac conf peer b e)
            (λ _ s. (b ≡ true) × At t u r a s)
            (Ends mac conf peer)
    unfolding Outcome
    ensure-At true e reports s h = (refl, h)
    ensure-At false e reports s h = reject-Ends (λ _ s. (false ≡ true) × At t u r a s) e reports s h

    pub required-At :
        {A : Type 0} (o : Option A) (e : Failure)
        → Reports t a
        → Triple
            (At t u r a)
            (required mac conf peer o e)
            (λ y s. (o ≡ some y) × At t u r a s)
            (Ends mac conf peer)
    unfolding Outcome
    required-At none e reports s h =
        reject-Ends (λ y s. (none ≡ some y) × At t u r a s) e reports s h
    required-At (some y) e reports s h = (refl, h)
