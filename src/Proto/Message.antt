-- ===== src/Proto/Message.antt =====
-- letmein-proto/src/lib.rs: the message type, its constructor and the secure random token.
use letmein.Base.{
  ℕ, ◌^◌, ◌<◌, ◌≡◌, Bool, true, not, ◌&&◌, Option, none, some, [], ◌∷◌, leb, nat_eq, length,
  replicate, All, list_eq, Result, panic, ◌>>=◌, ◌>>◌, ok, check,
}
use letmein.Base.Bytes.{Bytes, IsByte}
use letmein.Proto.Operation.{Operation}

-- `PORT`
abbrev pub port : ℕ
port = 5800

-- `MAGIC`
abbrev pub magic_code : ℕ
magic_code = 0x3B1BB719

abbrev pub salt_size : ℕ
salt_size = 8

abbrev pub auth_size : ℕ
auth_size = 32

abbrev pub key_size : ℕ
key_size = 32

-- `ZERO_AUTH`
abbrev pub zero_auth : Bytes
zero_auth = replicate auth_size 0

-- The newtypes over `u32`; `IsValid` below keeps them in range.
abbrev pub UserId : Type 0
UserId = ℕ

abbrev pub ResourceId : Type 0
ResourceId = ℕ

abbrev pub Key : Type 0
Key = Bytes

pub record Message : Type 0 where
  pub magic : ℕ
  pub operation : Operation
  pub user : UserId
  pub resource : ResourceId
  pub salt : Bytes
  pub auth : Bytes

-- What the Rust types guarantee, and the magic code of every message that the program makes.
pub record IsValid (m : Message) : Type 0 where
  pub magic_ok : m.magic ≡ magic_code
  pub user_ok : m.user < 2 ^ 32
  pub resource_ok : m.resource < 2 ^ 32
  pub salt_ok : length m.salt ≡ salt_size
  pub auth_ok : length m.auth ≡ auth_size
  pub salt_bytes : All IsByte m.salt
  pub auth_bytes : All IsByte m.auth

-- `buf.iter().all(|x| *x == first)`
abbrev all_equal : ℕ → Bytes → Bool
all_equal first [] = true
all_equal first (x ∷ xs) = nat_eq x first && all_equal first xs

abbrev first_byte : Bytes → ℕ
first_byte [] = 0
first_byte (x ∷ xs) = x

-- `fill` is what `getrandom` writes to the buffer, `none` its failure.
unfoldable pub secure_random : {E : Type 0} → ℕ → Option Bytes → Result E Bytes
secure_random size none = do check (leb 8 size); panic
secure_random size (some buf) = do
  check (leb 8 size)
  check (not (list_eq buf (replicate size 0)))
  check (not (list_eq buf (replicate size 0xFF)))
  check (not (all_equal (first_byte buf) buf))
  ok buf

-- `Message::new`
unfoldable pub new :
    {E : Type 0} → Operation → UserId → ResourceId → Option Bytes → Result E Message
new operation user resource fill = do
  salt ← secure_random salt_size fill
  ok (record {
    magic = magic_code;
    operation = operation;
    user = user;
    resource = resource;
    salt = salt;
    auth = zero_auth;
  })
