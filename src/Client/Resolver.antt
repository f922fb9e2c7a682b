-- ===== src/Client/Resolver.antt =====
-- letmein/src/resolver.rs: from a host name to an address. The standard library's `IpAddr::from_str`
-- is the parameter `parse_addr`, and the DNS library the parameter `lookup_host`.
use letmein.Base.{
  ◌≡◌, Bool, true, false, Option, none, some, List, [], ◌∷◌, arith, if◌then◌else◌, Result, ok, err,
}
use letmein.Base.Bytes.{Bytes}
use letmein.Base.Texts.{Text}
use letmein.Client.Sequence.{
  ResMode, res_ipv4, res_ipv6, HostKind, ipv4_literal, ipv6_literal, host_name,
}
use letmein.FwProto.Fields.{IpAddr, v4, v6}

pub data ResolveError : Type 0 where
  raw_ipv6 raw_ipv4 lookup_failed no_address : ResolveError

-- `RData`
pub data DnsRecord : Type 0 where
  a_record aaaa_record : Bytes → DnsRecord
  other_record : DnsRecord

abbrev pub is_ipv4 : IpAddr → Bool
is_ipv4 (v4 o) = true
is_ipv4 (v6 o) = false

abbrev pub is_ipv6 : IpAddr → Bool
is_ipv6 (v4 o) = false
is_ipv6 (v6 o) = true

-- The address is of the family that is asked for.
abbrev pub has_mode : ResMode → IpAddr → Bool
has_mode res_ipv4 addr = is_ipv4 addr
has_mode res_ipv6 addr = is_ipv6 addr

abbrev pub check_raw : ResMode → IpAddr → Result ResolveError IpAddr
check_raw res_ipv4 addr = if is_ipv4 addr then ok addr else err raw_ipv6
check_raw res_ipv6 addr = if is_ipv6 addr then ok addr else err raw_ipv4

-- The first record that fits the mode
unfoldable pub first_record : ResMode → List DnsRecord → Result ResolveError IpAddr
first_record mode [] = err no_address
first_record res_ipv6 (aaaa_record o ∷ rs) = ok (v6 o)
first_record res_ipv6 (a_record o ∷ rs) = first_record res_ipv6 rs
first_record res_ipv6 (other_record ∷ rs) = first_record res_ipv6 rs
first_record res_ipv4 (a_record o ∷ rs) = ok (v4 o)
first_record res_ipv4 (aaaa_record o ∷ rs) = first_record res_ipv4 rs
first_record res_ipv4 (other_record ∷ rs) = first_record res_ipv4 rs

module _ (parse_addr : Text → Option IpAddr)
    (lookup_host : Text → ResMode → Option (List DnsRecord)) where
  abbrev pub is_some_and : (IpAddr → Bool) → Option IpAddr → Bool
  is_some_and p none = false
  is_some_and p (some addr) = p addr

  -- `is_ipv4_addr`
  unfoldable pub is_ipv4_addr : Text → Bool
  is_ipv4_addr host = is_some_and is_ipv4 (parse_addr host)

  -- `is_ipv6_addr`
  unfoldable pub is_ipv6_addr : Text → Bool
  is_ipv6_addr host = is_some_and is_ipv6 (parse_addr host)

  -- How the host is written, for the choice of the attempts
  unfoldable pub host_kind : Text → HostKind
  unfolding is_ipv4_addr is_ipv6_addr
  host_kind host =
      if is_ipv4_addr host
      then ipv4_literal
      else if is_ipv6_addr host
      then ipv6_literal
      else host_name

  abbrev pub from_lookup : ResMode → Option (List DnsRecord) → Result ResolveError IpAddr
  from_lookup mode none = err lookup_failed
  from_lookup mode (some rs) = first_record mode rs

  abbrev pub from_parsed : Text → ResMode → Option IpAddr → Result ResolveError IpAddr
  from_parsed host mode (some addr) = check_raw mode addr
  from_parsed host mode none = from_lookup mode (lookup_host host mode)

  -- `resolve`
  unfoldable pub resolve : Text → ResMode → Result ResolveError IpAddr
  unfolding first_record
  resolve host mode = from_parsed host mode (parse_addr host)

  check_raw-mode :
      (mode : ResMode) (addr found : IpAddr)
      → check_raw mode addr ≡ ok found
      → has_mode mode found ≡ true
  check_raw-mode mode addr found e = ground (arith, e)

  first_record-mode :
      (mode : ResMode) (rs : List DnsRecord) (found : IpAddr)
      → first_record mode rs ≡ ok found
      → has_mode mode found ≡ true
  unfolding first_record
  first_record-mode mode [] found e = cc
  first_record-mode mode (r ∷ rs) found e = ground (arith, e, first_record-mode mode rs found)

  from_parsed-mode :
      (host : Text) (mode : ResMode) (parsed : Option IpAddr) (found : IpAddr)
      → from_parsed host mode parsed ≡ ok found
      → has_mode mode found ≡ true
  from_parsed-mode host mode (some addr) found e = check_raw-mode mode addr found e
  from_parsed-mode host mode none found e = by_lookup (lookup_host host mode) e
    where
      by_lookup :
          (o : Option (List DnsRecord)) → from_lookup mode o ≡ ok found → has_mode mode found ≡ true
      by_lookup none e1 = cc
      by_lookup (some rs) e1 = first_record-mode mode rs found e1

  -- The address that a host is resolved to is of the family of the mode.
  pub resolve-has_mode :
      (host : Text) (mode : ResMode) (found : IpAddr)
      → resolve host mode ≡ ok found
      → has_mode mode found ≡ true
  unfolding resolve
  resolve-has_mode host mode found e = from_parsed-mode host mode (parse_addr host) found e
