-- ===== src/Server/Protocol/Challenging.antt =====
-- The stage `challenge_client` of `run` in letmeind/src/protocol.rs, and `recv_msg`.
use letmein.Base.{
  ◌≡◌, sym, ap, ◌∙◌, Option, none, some, List, ◌∷◌, arith, nat_eq_iff, ◌==◌, ok, refl, subst, [],
  ◌++◌, true,
}
use letmein.Base.Bytes.{Bytes}
use letmein.Conf.{Config}
use letmein.FwProto.Fields.{IpAddr}
use letmein.Proto.Auth.{generate_challenge, check_auth_ok}
use letmein.Proto.Auth.Tokens.{check-Authentic}
use letmein.Proto.Message.{UserId, ResourceId, Key, Message}
use letmein.Proto.Operation.{operation_has_eq, Operation, challenge, response}
use letmein.Server.Logic.{Triple, Triple-bind, Triple-weaken, Triple-step, Triple-fail}
use letmein.Server.Protocol.{matches, ensure, check_msg, recv_msg, set_auth, challenge_client}
use letmein.Server.Protocol.Allowed.{Good, Identified, Answered, Challengeable, SentOk}
use letmein.Server.Protocol.Authorising.{Now}
use letmein.Server.Protocol.Rejection.{Reports, ensure-At}
use letmein.Server.Protocol.Stages.{known}
use letmein.Server.Protocol.Steps.{
  At, Made, with_got, Ends, Ends-At, receive-At, send_msg-At, random-At, lift-At, new_msg-At,
}
use letmein.Server.Session.{
  AuthState, Failure, disconnected, bad_operation, user_mismatch, resource_mismatch, Event, got,
  Session, ◌>>=◌, ◌>>◌, basic_authenticated, challenge_response, response_auth_failed, sent, lift,
  send_msg,
}

generate_challenge-Made :
    (draft : Message) (fill : Option Bytes) {c : Message} (user : UserId) (resource : ResourceId)
    → Made challenge user resource draft
    → generate_challenge {E = Failure} draft fill ≡ ok c
    → Made challenge user resource c
unfolding generate_challenge
generate_challenge-Made draft fill user resource h e = ground arith

module _ (mac : Key → Bytes → Bytes) (conf : Config) (peer : IpAddr) where
  -- The message that is received has the operation, the user and the resource that are expected.
  abbrev pub Expected :
      List Event → UserId → ResourceId → AuthState → Operation → Message → Session → Type 0
  Expected t u r a o m s = Made o u r m × At (got m ∷ t) (some u) (some r) a s

  module _ (t : List Event) (u : UserId) (r : ResourceId) (a : AuthState)
      (good : Good mac conf peer t)
      (reports : (m : Message) → Reports mac conf peer (got m ∷ t) a) where
    matches_user :
        (m : Message)
        → Triple
            (At (got m ∷ t) (some u) (some r) a)
            (λ s. ensure mac conf peer (matches s.user_id m.user) user_mismatch s)
            (λ _ s. (m.user ≡ u) × At (got m ∷ t) (some u) (some r) a s)
            (Ends mac conf peer)
    matches_user m s h =
        Triple-weaken _ _ _
          (ensure-At mac conf peer (tt, good) (matches s.user_id m.user) user_mismatch (reports m))
          (λ _ s' h'. ((nat_eq_iff m.user u).0 (ap (λ o. matches o m.user) (sym h.1) ∙ h'.0), h'.1))
          s h

    matches_resource :
        (m : Message)
        → Triple
            (At (got m ∷ t) (some u) (some r) a)
            (λ s. ensure mac conf peer (matches s.resource_id m.resource) resource_mismatch s)
            (λ _ s. (m.resource ≡ r) × At (got m ∷ t) (some u) (some r) a s)
            (Ends mac conf peer)
    matches_resource m s h =
        Triple-weaken _ _ _
          (ensure-At mac conf peer (tt, good) (matches s.resource_id m.resource) resource_mismatch
            (reports m))
          (λ _ s' h'.
            ((nat_eq_iff m.resource r).0 (ap (λ o. matches o m.resource) (sym h.2) ∙ h'.0), h'.1))
          s h

    check_msg-Expected :
        (o : Operation) (m : Option Message)
        → Triple
            (At (with_got m t) (some u) (some r) a)
            (check_msg mac conf peer o m)
            (Expected t u r a o)
            (Ends mac conf peer)
    check_msg-Expected o none =
        Triple-fail _ (Expected t u r a o) disconnected (λ s h. Ends-At mac conf peer good s h.0)
    check_msg-Expected o (some m) =
        Triple-bind _ _ _ _
          (ensure-At mac conf peer (tt, good) (m.operation == o) bad_operation (reports m))
          (λ _ s h.
            Triple-bind _ _ _ _ (matches_user m)
              (λ _ s' h'.
                Triple-bind _ _ _ _ (matches_resource m)
                  (λ _.
                    Triple-step _ (Expected t u r a o) m (λ x. x)
                      (λ x hx.
                        (((operation_has_eq.same_iff m.operation o).0 h.0, h'.0, hx.0), hx.1)))
                  s' h'.1)
              s h.1)

    pub recv_msg-Expected :
        (o : Operation)
        → Triple
            (At t (some u) (some r) a)
            (recv_msg mac conf peer o)
            (Expected t u r a o)
            (Ends mac conf peer)
    unfolding recv_msg
    recv_msg-Expected o = Triple-bind _ _ _ _ (receive-At mac conf peer good) (check_msg-Expected o)

  -- Behind the response to the challenge.
  abbrev pub Proved : Message → Key → Session → Type 0
  Proved msg key s =
      (c : Message) × (answer : Message) × Answered mac conf msg key c answer
      × At (got answer ∷ sent c ∷ got msg ∷ []) (some msg.user) (some msg.resource)
          challenge_response s

  module _ (msg : Message) (key : Key) (identified : Identified mac conf msg key)
      (found : Challengeable mac conf (got msg ∷ [])) where
    Reports-later :
        (later : List Event) → Reports mac conf peer (later ++ (got msg ∷ [])) basic_authenticated
    Reports-later later =
        known mac conf peer basic_authenticated (later ++ (got msg ∷ [])) (record {
          later = later;
          request = msg;
          key = key;
          begins = refl;
          identified = identified;
        })

    await_response-Proved :
        (c : Message)
        → Made challenge msg.user msg.resource c
        → Triple
            (Now mac conf peer msg basic_authenticated)
            (send_msg c
              >> (recv_msg mac conf peer response >>= λ answer.
                  (lift (check_auth_ok mac answer key c) >>= λ authentic.
                  (ensure mac conf peer authentic response_auth_failed
                    >> set_auth mac conf peer challenge_response))))
            (λ _. Proved msg key)
            (Ends mac conf peer)
    await_response-Proved c made =
        let fine = subst (λ o. SentOk mac conf peer o (got msg ∷ [])) (sym made.0) found in
        let good : Good mac conf peer (sent c ∷ got msg ∷ []) = (fine, (tt, tt)) in
        Triple-bind _ _ _ _ (send_msg-At mac conf peer (tt, tt) c fine) (λ _.
          Triple-bind _ _ _ _
            (recv_msg-Expected (sent c ∷ got msg ∷ []) msg.user msg.resource basic_authenticated
              good (λ m. Reports-later (got m ∷ sent c ∷ [])) response)
            (λ answer s h.
              Triple-bind _ _ _ _
                (lift-At mac conf peer (tt, good)
                  (λ b. b ≡ true → Answered mac conf msg key c answer)
                  (check_auth_ok mac answer key c)
                  (λ b e yes. record {
                    c_operation = made.0;
                    c_user = made.1;
                    c_resource = made.2;
                    answer_operation = h.0.0;
                    answer_user = h.0.1;
                    answer_resource = h.0.2;
                    answer_token = (check-Authentic mac answer key c (e ∙ ap ok yes)).0.token;
                  }))
                (λ b s' h'.
                  Triple-bind _ _ _ _
                    (ensure-At mac conf peer (tt, good) b response_auth_failed
                      (Reports-later (got answer ∷ sent c ∷ [])))
                    (λ _.
                      Triple-step _ (λ _. Proved msg key) tt
                        (λ x. record x { auth_state = challenge_response })
                        (λ x hx. (c, answer, h'.0 hx.0, (hx.1.0, hx.1.1, hx.1.2, refl))))
                    s' h'.1)
                s h.1))

    pub challenge_client-Proved :
        Triple
          (Now mac conf peer msg basic_authenticated)
          (challenge_client mac conf peer msg key)
          (λ _. Proved msg key)
          (Ends mac conf peer)
    unfolding challenge_client
    challenge_client-Proved =
        Triple-bind _ _ _ _ (new_msg-At mac conf peer (tt, tt) challenge msg.user msg.resource)
          (λ draft s h.
            Triple-bind _ _ _ _ (random-At mac conf peer (tt, tt))
              (λ fill.
                Triple-bind _ _ _ _
                  (lift-At mac conf peer (tt, tt) (Made challenge msg.user msg.resource)
                    (generate_challenge draft fill)
                    (λ c e. generate_challenge-Made draft fill msg.user msg.resource h.0 e))
                  (λ c s' h'. await_response-Proved c h'.0 s' h'.1))
              s h.1)
