-- ===== src/Server/Protocol/Authorising.antt =====
-- The stage `authorise` of `run` in letmeind/src/protocol.rs.
use letmein.Base.{◌≡◌, refl, ap, ◌∙◌, true, not, some, [], ◌∷◌, arith, nat_eq, ok}
use letmein.Base.Bytes.{Bytes}
use letmein.Conf.{Resource, port_resource, contains_user, Config, get_key, get_resource}
use letmein.FwProto.Fields.{IpAddr}
use letmein.Proto.Auth.{check_auth_ok_no_challenge}
use letmein.Proto.Auth.Tokens.{check_no_challenge-Authentic}
use letmein.Proto.Message.{Key, Message}
use letmein.Proto.Operation.{operation_has_eq}
use letmein.Server.Logic.{Triple, Triple-bind, Triple-weaken, Triple-step}
use letmein.Server.Protocol.{required, check_resource, authorise}
use letmein.Server.Protocol.Allowed.{Identified, Entitled}
use letmein.Server.Protocol.Rejection.{Reports, ensure-At, required-At}
use letmein.Server.Protocol.Stages.{IsRequest, Known, known}
use letmein.Server.Protocol.Steps.{At, Ends, lift-At}
use letmein.Server.Session.{
  ◌>>=◌, ◌>>◌, AuthState, not_auth, basic_authenticated, unknown_user, knock_auth_failed,
  unknown_resource, not_allowed, uses_control_port, got, Session, pure,
}

module _ (mac : Key → Bytes → Bytes) (conf : Config) (peer : IpAddr) where
  abbrev pub HasEntitled : Message → Resource → Type 0
  HasEntitled msg (port_resource p tcp? udp? users) = Entitled mac conf msg p tcp? udp? users

  -- Behind the initial message, in the state `a`.
  abbrev pub Now : Message → AuthState → Session → Type 0
  Now msg a = At (got msg ∷ []) (some msg.user) (some msg.resource) a

  -- Behind a request with a good token for a resource that the user may open.
  abbrev pub Authorised : Message → Key × Resource → Session → Type 0
  Authorised msg (key, resource) s =
      (Identified mac conf msg key × HasEntitled msg resource) × Now msg basic_authenticated s

  pub knock_auth :
      (msg : Message) (key : Key)
      → Identified mac conf msg key
      → Known mac conf peer basic_authenticated (got msg ∷ [])
  knock_auth msg key identified = record {
    later = [];
    request = msg;
    key = key;
    begins = refl;
    identified = identified;
  }

  module _ (msg : Message) (key : Key) (identified : Identified mac conf msg key) where
    reports : Reports mac conf peer (got msg ∷ []) basic_authenticated
    reports = known mac conf peer basic_authenticated (got msg ∷ []) (knock_auth msg key identified)

    check_resource-HasEntitled :
        (resource : Resource)
        → get_resource conf msg.resource ≡ some resource
        → Triple
            (Now msg basic_authenticated)
            (check_resource mac conf peer msg.user resource)
            (λ _ s. HasEntitled msg resource × Now msg basic_authenticated s)
            (Ends mac conf peer)
    check_resource-HasEntitled (port_resource p tcp? udp? users) found =
        Triple-bind _ _ _ _
          (ensure-At mac conf peer (tt, tt)
            (contains_user (port_resource p tcp? udp? users) msg.user) not_allowed reports)
          (λ _ s h.
            Triple-weaken _ _ _
              (ensure-At mac conf peer (tt, tt) (not (nat_eq p conf.control_port.port))
                uses_control_port reports)
              (λ _ s' h'. (
                record {
                  resource_known = found;
                  user_ok = h.0;
                  not_control = ground (arith, h'.0);
                },
                h'.1,
              ))
              s h.1)

    find_resource-Authorised :
        Triple
          (Now msg basic_authenticated)
          (required mac conf peer (get_resource conf msg.resource) unknown_resource >>= λ resource.
            check_resource mac conf peer msg.user resource >> pure (key, resource))
          (Authorised msg)
          (Ends mac conf peer)
    find_resource-Authorised =
        Triple-bind _ _ _ _
          (required-At mac conf peer (tt, tt) (get_resource conf msg.resource) unknown_resource
            reports)
          (λ resource s h.
            Triple-bind _ (Authorised msg) _ _ (check_resource-HasEntitled resource h.0)
              (λ _.
                Triple-step _ (Authorised msg) (key, resource) (λ s'. s')
                  (λ s' h'. ((identified, h'.0), h'.1)))
              s h.1)

  pub authorise-Authorised :
      (msg : Message)
      → IsRequest mac conf peer msg
      → Triple
          (Now msg not_auth)
          (authorise mac conf peer msg)
          (Authorised msg)
          (Ends mac conf peer)
  unfolding authorise
  authorise-Authorised msg req =
      Triple-bind _ _ _ _
        (required-At mac conf peer (tt, tt) (get_key conf msg.user) unknown_user
          (known mac conf peer not_auth (got msg ∷ []) tt))
        (λ key s h.
          Triple-bind _ _ _ _
            (lift-At mac conf peer (tt, tt) (λ b. b ≡ true → Identified mac conf msg key)
              (check_auth_ok_no_challenge mac msg key)
              (λ b e yes. record {
                is_request = req;
                key_known = h.0;
                token_ok = (check_no_challenge-Authentic mac msg key (e ∙ ap ok yes)).0.token;
              }))
            (λ b s' h'.
              Triple-bind _ _ _ _
                (ensure-At mac conf peer (tt, tt) b knock_auth_failed
                  (known mac conf peer not_auth (got msg ∷ []) tt))
                (λ _ s'' h''.
                  find_resource-Authorised msg key (h'.0 h''.0)
                    (record s'' { auth_state = basic_authenticated })
                    (h''.1.0, h''.1.1, h''.1.2, refl))
                s' h'.1)
            s h.1)
