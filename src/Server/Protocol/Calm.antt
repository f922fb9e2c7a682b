-- ===== src/Server/Protocol/Calm.antt =====
-- letmeind/src/protocol.rs: with a configuration that was loaded and good random bytes, no stage of
-- the server panics.
use letmein.Base.{
  list_has_eq, nat_has_eq, ◌≡◌, sym, subst, true, ◌||◌, Option, none, some, List, [], ◌∷◌, arith,
  length, ◌==◌, list_eq, Result, ok, Bool, not, nat_eq,
}
use letmein.Base.Bytes.{Bytes}
use letmein.Conf.{Config, Resource, port_resource, contains_user, get_key, get_resource}
use letmein.Conf.Keys.{Usable, lookup-Usable}
use letmein.Conf.Loaded.{Sound, Loaded, lookup-Sound}
use letmein.FwProto.Fields.{IpAddr}
use letmein.Proto.Auth.{mac_input, check_auth_ok, check_auth_ok_no_challenge, generate_challenge}
use letmein.Proto.Message.{auth_size, key_size, zero_auth, Key, Message, UserId}
use letmein.Proto.Operation.{knock, challenge, response, close, operation_has_eq}
use letmein.Server.Protocol.{
  check_msg, check_initial, receive_initial, matches, recv_msg, check_resource, authorise,
}
use letmein.Server.Protocol.Honest.{RandomBytes}
use letmein.Server.Protocol.Sure.{
  GoodSalt, GoodRandom, GoodRandom-GoodSalt, rest_of, ensure-Safe, AfterKept, receive-Safe, ensured,
  required-Safe, lift-Safe,
}
use letmein.Server.Safety.{Safe, Always, Safe-continue}
use letmein.Server.Session.{
  Failure, bad_operation, Session, next_fill, random, not_auth, user_mismatch, resource_mismatch,
  receive, basic_authenticated, unknown_user, knock_auth_failed, unknown_resource, not_allowed,
  uses_control_port,
}

-- What the initial message is checked for
abbrev pub IsInitial : Message → Type 0
IsInitial m = (m.operation == knock || m.operation == close) ≡ true

no_challenge-ok :
    (mac : Key → Bytes → Bytes) (m : Message) (key : Key)
    → IsInitial m
    → length key ≡ key_size
    → Path
        (Result Failure Bool)
        (check_auth_ok_no_challenge mac m key)
        (ok (list_eq m.auth (mac key (mac_input m zero_auth))))
unfolding check_auth_ok_no_challenge
no_challenge-ok mac m key o l = ground (arith, o, l)

pub challenge-ok :
    (mac : Key → Bytes → Bytes) (m : Message) (key : Key) (c : Message)
    → c.operation ≡ challenge
    → m.operation ≡ response
    → length key ≡ key_size
    → length c.auth ≡ auth_size
    → Path
        (Result Failure Bool)
        (check_auth_ok mac m key c)
        (ok (list_eq m.auth (mac key (mac_input m c.auth))))
unfolding check_auth_ok
challenge-ok mac m key c o p l k = ground (arith, o, p, l, k)

-- The next random bytes are a good challenge, behind which a good salt follows.
abbrev pub GoodNonce : Option Bytes → Type 0
GoodNonce none = ⊥
GoodNonce (some g) = RandomBytes auth_size g × (length g ≡ auth_size)

abbrev pub NonceNext : List (Option Bytes) → Type 0
NonceNext [] = ⊥
NonceNext (f ∷ fs) = GoodNonce f × GoodSalt fs

pub GoodRandom-NonceNext : (fs : List (Option Bytes)) → GoodRandom fs → NonceNext (rest_of fs)
GoodRandom-NonceNext (some f ∷ some g ∷ fs) h = ((h.1, h.2), h.3)
GoodRandom-NonceNext (some f ∷ none ∷ fs) h = absurd h
GoodRandom-NonceNext (some f ∷ []) h = absurd h
GoodRandom-NonceNext (none ∷ fs) h = absurd h
GoodRandom-NonceNext [] h = absurd h

next_fill-Safe :
    (fs : List (Option Bytes)) (s : Session)
    → NonceNext fs
    → Safe (λ fill s'. GoodNonce fill × GoodSalt s'.fills) Always (next_fill fs s)
next_fill-Safe [] s h = absurd h
next_fill-Safe (f ∷ fs) s h = h

pub random-Safe :
    (s : Session)
    → NonceNext s.fills
    → Safe (λ fill s'. GoodNonce fill × GoodSalt s'.fills) Always (random s)
unfolding random
random-Safe s h = next_fill-Safe s.fills s h

abbrev pub Challenges : Message → Type 0
Challenges c = (c.operation ≡ challenge) × (length c.auth ≡ auth_size)

pub generate_challenge-ok :
    (base : Message) (fill : Option Bytes)
    → base.operation ≡ challenge
    → GoodNonce fill
    → (c : Message) × (generate_challenge {E = Failure} base fill ≡ ok c) × Challenges c
unfolding generate_challenge
generate_challenge-ok base none o g = absurd g
generate_challenge-ok base (some nonce) o g =
    (record base { auth = nonce }, ground (arith, o, g.0), (o, g.1))

-- What the server has when a request is authorised
abbrev pub Entrusted : Message → Key × Resource → Session → Type 0
Entrusted msg (key, r) s = GoodRandom s.fills × (length key ≡ key_size) × Sound msg.resource r

module _ (mac : Key → Bytes → Bytes) (conf : Config) (peer : IpAddr) where
  check_initial-Safe :
      (m : Option Message) (s : Session)
      → GoodRandom s.fills
      → Safe
          (λ msg s'. GoodRandom s'.fills × IsInitial msg)
          Always
          (check_initial mac conf peer m s)
  check_initial-Safe none s h = tt
  check_initial-Safe (some msg) s h =
      ensure-Safe mac conf peer (λ msg s'. GoodRandom s'.fills × IsInitial msg) s
        (msg.operation == knock || msg.operation == close) bad_operation _
        (GoodRandom-GoodSalt s.fills h) (λ is_request. (h, is_request))

  pub receive_initial-Safe :
      (s : Session)
      → GoodRandom s.fills
      → Safe
          (λ msg s'. GoodRandom s'.fills × IsInitial msg)
          Always
          (receive_initial mac conf peer s)
  unfolding receive_initial
  receive_initial-Safe s h =
      let s0 = record s { user_id = none; resource_id = none; auth_state = not_auth } in
      Safe-continue (AfterKept s0) (λ msg s'. GoodRandom s'.fills × IsInitial msg) (receive s0) _
        (receive-Safe s0)
        (λ m s1 k.
          Safe-continue (λ msg s'. GoodRandom s'.fills × IsInitial msg)
            (λ msg s'. GoodRandom s'.fills × IsInitial msg) (check_initial mac conf peer m s1) _
            (check_initial-Safe m s1 (subst GoodRandom (sym k.0) h)) (λ msg s2 j. j))

  same_operation : (m : Message) → (m.operation == response) ≡ true → m.operation ≡ response
  same_operation m e = (operation_has_eq.same_iff m.operation response).0 e

  check_msg-Safe :
      (m : Option Message) (s : Session)
      → GoodSalt s.fills
      → Safe
          (λ msg s'. GoodSalt s'.fills × (msg.operation ≡ response))
          Always
          (check_msg mac conf peer response m s)
  check_msg-Safe none s h = tt
  check_msg-Safe (some msg) s h =
      let Post : Message → Session → Type 0 =
        λ m s'. GoodSalt s'.fills × (m.operation ≡ response) in
      ensure-Safe mac conf peer Post s (msg.operation == response) bad_operation _ h λ is_response.
        ensure-Safe mac conf peer Post s (matches s.user_id msg.user) user_mismatch _ h λ _.
          ensure-Safe mac conf peer Post s (matches s.resource_id msg.resource) resource_mismatch _
            h λ _. (h, same_operation msg is_response)

  pub recv_msg-Safe :
      (s : Session)
      → GoodSalt s.fills
      → Safe
          (λ msg s'. GoodSalt s'.fills × (msg.operation ≡ response))
          Always
          (recv_msg mac conf peer response s)
  unfolding recv_msg
  recv_msg-Safe s h =
      Safe-continue (AfterKept s) (λ msg s'. GoodSalt s'.fills × (msg.operation ≡ response))
        (receive s) _ (receive-Safe s) (λ m s' k. check_msg-Safe m s' (subst GoodSalt (sym k.0) h))

  check_resource-Safe :
      (user : UserId) (r : Resource) (s : Session)
      → GoodSalt s.fills
      → Safe (λ _ s'. s' ≡ s) Always (check_resource mac conf peer user r s)
  check_resource-Safe user (port_resource p t u users) s h =
      ensure-Safe mac conf peer (λ _ s'. s' ≡ s) s (contains_user (port_resource p t u users) user)
        not_allowed _ h
        (λ _. ensured mac conf peer (not (nat_eq p conf.control_port.port)) uses_control_port s h)

  module _ (usable : Usable conf.keys) (loaded : Loaded conf.resources) where
    pub authorise-Safe :
        (msg : Message) (s : Session)
        → IsInitial msg
        → GoodRandom s.fills
        → Safe (Entrusted msg) Always (authorise mac conf peer msg s)
    unfolding authorise
    authorise-Safe msg s q h =
        let salt : GoodSalt s.fills = GoodRandom-GoodSalt s.fills h in
        required-Safe mac conf peer (Entrusted msg) s (get_key conf msg.user) unknown_user _ salt
          λ key found.
            let size : length key ≡ key_size = lookup-Usable msg.user conf.keys key usable found in
            lift-Safe mac conf peer (Entrusted msg) s (check_auth_ok_no_challenge mac msg key) _ _
              (no_challenge-ok mac msg key q size)
              (ensure-Safe mac conf peer (Entrusted msg) s
                (list_eq msg.auth (mac key (mac_input msg zero_auth))) knock_auth_failed _ salt
                λ _.
                  required-Safe mac conf peer (Entrusted msg)
                    (record s { auth_state = basic_authenticated }) (get_resource conf msg.resource)
                    unknown_resource _ salt
                    λ r there.
                      Safe-continue (λ _ s'. s' ≡ record s { auth_state = basic_authenticated })
                        (Entrusted msg)
                        (check_resource mac conf peer msg.user r
                          (record s { auth_state = basic_authenticated }))
                        _
                        (check_resource-Safe msg.user r
                          (record s { auth_state = basic_authenticated }) salt)
                        (λ _ s' k. (
                          subst (λ (x : Session). GoodRandom x.fills) (sym k) h,
                          size,
                          lookup-Sound msg.resource conf.resources r loaded there,
                        )))
