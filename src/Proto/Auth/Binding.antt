-- ===== src/Proto/Auth/Binding.antt =====
-- letmein-proto/src/lib.rs: what a token stands for. The input of the MAC determines the operation,
-- the user, the resource, the salt and the nonce, so a token that passes for two messages comes
-- from one content or from a collision of the MAC.
use letmein.Base.{
  ◌≡◌, refl, sym, ◌∙◌, ◌≢◌, ◌⊎◌, inl, inr, true, arith, Bool-cases, append-injective, list_eq,
  list_eq_iff, ok,
}
use letmein.Base.Bytes.{Bytes, u32_be, u32_be-injective}
use letmein.Proto.Auth.{mac_input, check_auth_ok, check_auth_ok_no_challenge}
use letmein.Proto.Auth.Tokens.{Authentic, check_no_challenge-Authentic, check-Authentic}
use letmein.Proto.Message.{zero_auth, Key, Message, IsValid}
use letmein.Proto.Operation.{Operation, to_u32, to_u32-lt}

-- Two messages with their nonces have one content.
pub record SameContent (m n : Message) (a b : Bytes) : Type 0 where
  pub operation : m.operation ≡ n.operation
  pub user : m.user ≡ n.user
  pub resource : m.resource ≡ n.resource
  pub salt : m.salt ≡ n.salt
  pub nonce : a ≡ b

to_u32-injective : (a b : Operation) → to_u32 a ≡ to_u32 b → a ≡ b
to_u32-injective a b h = ground arith

pub mac_input-injective :
    (m n : Message) (a b : Bytes)
    → IsValid m
    → IsValid n
    → mac_input m a ≡ mac_input n b
    → SameContent m n a b
mac_input-injective m n a b v w e =
    let (e1, r1) =
      append-injective (u32_be (to_u32 m.operation)) (u32_be (to_u32 n.operation)) refl e in
    let (e2, r2) = append-injective (u32_be m.user) (u32_be n.user) refl r1 in
    let (e3, r3) = append-injective (u32_be m.resource) (u32_be n.resource) refl r2 in
    let (e4, r4) = append-injective m.salt n.salt (v.salt_ok ∙ sym w.salt_ok) r3 in
    record {
      operation = to_u32-injective m.operation n.operation (
          u32_be-injective _ _ (omega (arith, to_u32-lt m.operation))
            (omega (arith, to_u32-lt n.operation)) e1);
      user = u32_be-injective _ _ v.user_ok w.user_ok e2;
      resource = u32_be-injective _ _ v.resource_ok w.resource_ok e3;
      salt = e4;
      nonce = r4;
    }

module _ (mac : Key → Bytes → Bytes) where
  -- Two inputs with one MAC.
  pub record Collision (shared_key : Key) (x y : Bytes) : Type 0 where
    pub inputs_differ : x ≢ y
    pub macs_agree : mac shared_key x ≡ mac shared_key y

  Authentic-SameContent :
      (m n : Message) (shared_key a b : Bytes)
      → IsValid m
      → IsValid n
      → m.auth ≡ n.auth
      → Authentic mac m shared_key a
      → Authentic mac n shared_key b
      → SameContent m n a b ⊎ Collision shared_key (mac_input m a) (mac_input n b)
  Authentic-SameContent m n shared_key a b v w same p q =
      elim (Bool-cases (list_eq (mac_input m a) (mac_input n b))) [
        | inl e ↦ inl (mac_input-injective m n a b v w ((list_eq_iff _ _).0 e))
        | inr e ↦ inr (record {
          inputs_differ = λ x. cc (e, (list_eq_iff _ _).1 x);
          macs_agree = sym p.token ∙ same ∙ q.token;
        })
      ]

  module _ {E : Type 0} (m n c d : Message) (shared_key : Key) (v : IsValid m) (w : IsValid n) where
    -- If one token passes `check_auth_ok` in two valid responses, to two challenges, then the
    -- responses agree in operation, user, resource and salt and the challenges in their nonce, or
    -- the MAC has a collision. So a response cannot be replayed under a fresh nonce.
    pub check_auth_ok-binds :
        m.auth ≡ n.auth
        → check_auth_ok mac {E = E} m shared_key c ≡ ok true
        → check_auth_ok mac {E = E} n shared_key d ≡ ok true
        → SameContent m n c.auth d.auth
          ⊎ Collision shared_key (mac_input m c.auth) (mac_input n d.auth)
    check_auth_ok-binds same h k =
        Authentic-SameContent m n shared_key c.auth d.auth v w same
          (check-Authentic mac m shared_key c h).0 (check-Authentic mac n shared_key d k).0

  -- The token of a Knock or Close message never passes as the token of a response, unless the MAC
  -- has a collision.
  pub knock_token-not-response :
      {E : Type 0} (m n c : Message) (shared_key : Key)
      → IsValid m
      → IsValid n
      → m.auth ≡ n.auth
      → check_auth_ok_no_challenge mac {E = E} m shared_key ≡ ok true
      → check_auth_ok mac {E = E} n shared_key c ≡ ok true
      → Collision shared_key (mac_input m zero_auth) (mac_input n c.auth)
  knock_token-not-response m n c shared_key v w same h k =
      let (p, o) = check_no_challenge-Authentic mac m shared_key h in
      let (q, r, _) = check-Authentic mac n shared_key c k in
      elim (Authentic-SameContent m n shared_key zero_auth c.auth v w same p q) [
        | inl s ↦ absurd (ground (arith, s.operation))
        | inr clash ↦ clash
      ]
