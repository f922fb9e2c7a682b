-- ===== src/Conf.antt =====
-- letmein-conf/src/lib.rs: the configuration as it is loaded, and its look-ups. A text is the list
-- of its code points, a duration a number of nanoseconds, a `HashMap` an association list.
pub mod Drafts
pub mod Durations
pub mod Ids
pub mod Ini
pub mod Keys
pub mod Load
pub mod Loaded
pub mod Lookups
pub mod Parsing
pub mod Resources
pub mod Settings
use letmein.Base.{
  ℕ, ◌^◌, ◌<◌, ◌≡◌, Bool, true, false, ◌&&◌, ◌||◌, Option, none, some, List, [], ◌∷◌, nat_eq,
  if◌then◌else◌, length, All, nat_has_eq,
}
use letmein.Base.Assoc.{lookup}
use letmein.Base.Texts.{Text}
use letmein.Proto.Message.{key_size, UserId, ResourceId, Key}

pub record ControlPort : Type 0 where
  pub port : ℕ
  pub tcp : Bool
  pub udp : Bool

pub data Resource : Type 0 where
  port_resource : (port : ℕ) (tcp udp : Bool) (users : List UserId) → Resource

-- `Vec::contains`
abbrev contains : UserId → List UserId → Bool
contains id [] = false
contains id (u ∷ us) = nat_eq u id || contains id us

-- `Resource::contains_user`: a resource without users is unrestricted.
unfoldable pub contains_user : Resource → UserId → Bool
contains_user (port_resource port tcp udp []) id = true
contains_user (port_resource port tcp udp (u ∷ us)) id = contains id (u ∷ us)

pub data ErrorPolicy : Type 0 where
  always basic_auth full_auth : ErrorPolicy

pub data Seccomp : Type 0 where
  off log_only kill : Seccomp

pub data ConfigVariant : Type 0 where
  server_variant client_variant : ConfigVariant

pub record Config : Type 0 where
  pub variant : ConfigVariant
  pub debug : Bool
  pub control_port : ControlPort
  pub control_timeout : ℕ
  pub control_error_policy : ErrorPolicy
  pub seccomp : Seccomp
  pub keys : List (UserId × Key)
  pub resources : List (ResourceId × Resource)
  pub default_user : UserId
  pub nft_exe : Text
  pub nft_family : Text
  pub nft_table : Text
  pub nft_chain_input : Text
  pub nft_timeout : ℕ

-- `Config::key`
abbrev pub get_key : Config → UserId → Option Key
get_key conf id = lookup id conf.keys

-- `Config::resource`
abbrev pub get_resource : Config → ResourceId → Option Resource
get_resource conf id = lookup id conf.resources

abbrev pub allows : Resource → Option UserId → Bool
allows r none = true
allows r (some user) = contains_user r user

-- `Config::resource_id_by_port`, in the order of the list
unfoldable pub resource_id_by_port :
    List (ResourceId × Resource) → ℕ → Option UserId → Option ResourceId
resource_id_by_port [] port user = none
resource_id_by_port ((id, port_resource p tcp udp users) ∷ rs) port user =
    let rest = resource_id_by_port rs port user in
    if nat_eq p port && allows (port_resource p tcp udp users) user then some id else rest
