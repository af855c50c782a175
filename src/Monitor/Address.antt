-- ===== src/Monitor/Address.antt =====
-- crates/nopager-monitor/src/lib.rs: `validate_health_url`, `validate_public_ip`,
-- `validate_resolved_addresses` and `is_vercel_deployment_host`. An address is its 32-bit or 128-bit
-- number, a network its base and prefix length; a parsed `Url` is what the url crate answers of it.
pub mod Ranges
use nopager.Prelude.{
  ℕ, ◌-◌, ◌/◌, ◌^◌, Bool, true, false, not, ◌&&◌, ◌||◌, Option, none, some, List, [], ◌∷◌, map,
  Text, text, text_eq, to_ascii_lowercase, is_empty, is_some, any, ◌==◌, if◌then◌else◌, Result, ok,
  err, ◌>>=◌, ◌>>◌, refuse_if,
}

pub data IpAddr : Type 0 where
  v4 : ℕ → IpAddr
  v6 : ℕ → IpAddr

pub data IpNet : Type 0 where
  net4 : (base len : ℕ) → IpNet
  net6 : (base len : ℕ) → IpNet

pub data UrlSafetyError : Type 0 where
  https_required missing_host non_public_target embedded_credentials : UrlSafetyError

-- `IpNet::contains`
abbrev pub contains : IpNet → IpAddr → Bool
contains (net4 base len) (v4 a) = a / 2 ^ (32 - len) == base / 2 ^ (32 - len)
contains (net6 base len) (v6 a) = a / 2 ^ (128 - len) == base / 2 ^ (128 - len)
contains _ _ = false

abbrev pub blocked : List IpNet
blocked =
    net4 0x0000_0000 8
    ∷ net4 0x0a00_0000 8
    ∷ net4 0x6440_0000 10
    ∷ net4 0x7f00_0000 8
    ∷ net4 0xa9fe_0000 16
    ∷ net4 0xac10_0000 12
    ∷ net4 0xc000_0000 24
    ∷ net4 0xc000_0200 24
    ∷ net4 0xc058_6300 24
    ∷ net4 0xc0a8_0000 16
    ∷ net4 0xc612_0000 15
    ∷ net4 0xc633_6400 24
    ∷ net4 0xcb00_7100 24
    ∷ net4 0xe000_0000 4
    ∷ net4 0xf000_0000 4
    ∷ net6 0 128
    ∷ net6 1 128
    ∷ net6 0xffff_0000_0000 96
    ∷ net6 0x0064_ff9b_0000_0000_0000_0000_0000_0000 96
    ∷ net6 0x0064_ff9b_0001_0000_0000_0000_0000_0000 48
    ∷ net6 0x0100_0000_0000_0000_0000_0000_0000_0000 64
    ∷ net6 0x0100_0000_0000_0001_0000_0000_0000_0000 64
    ∷ net6 0x2001_0000_0000_0000_0000_0000_0000_0000 32
    ∷ net6 0x2001_0002_0000_0000_0000_0000_0000_0000 48
    ∷ net6 0x2001_0010_0000_0000_0000_0000_0000_0000 28
    ∷ net6 0x2001_0db8_0000_0000_0000_0000_0000_0000 32
    ∷ net6 0x2002_0000_0000_0000_0000_0000_0000_0000 16
    ∷ net6 0x3fff_0000_0000_0000_0000_0000_0000_0000 20
    ∷ net6 0x5f00_0000_0000_0000_0000_0000_0000_0000 16
    ∷ net6 0xfc00_0000_0000_0000_0000_0000_0000_0000 7
    ∷ net6 0xfe80_0000_0000_0000_0000_0000_0000_0000 10
    ∷ net6 0xff00_0000_0000_0000_0000_0000_0000_0000 8
    ∷ []

unfoldable pub validate_public_ip : IpAddr → Result UrlSafetyError (Unit {0})
validate_public_ip ip =
    if any (λ network. contains network ip) blocked then err non_public_target else ok tt

-- The loop of `validate_resolved_addresses`, with its flag.
validate_addresses : Bool → List IpAddr → Result UrlSafetyError (Unit {0})
validate_addresses found [] = refuse_if (not found) missing_host
validate_addresses found (a ∷ rest) = validate_public_ip a >> validate_addresses true rest

unfoldable pub validate_resolved_addresses : List IpAddr → Result UrlSafetyError (Unit {0})
unfolding validate_addresses
validate_resolved_addresses addresses = validate_addresses false addresses

pub data Host : Type 0 where
  domain : Text → Host
  ip : IpAddr → Host

-- The parts of a `Url`.
pub record Url : Type 0 where
  pub scheme : Text
  pub username : Text
  pub password : Option Text
  pub host : Option Host

abbrev pub ends_with : Text → Text → Bool
ends_with [] t = text_eq [] t
ends_with (c ∷ s) t = text_eq (c ∷ s) t || ends_with s t

-- `host.eq_ignore_ascii_case("localhost") || host.ends_with(".local")`
abbrev is_local_domain : Text → Bool
is_local_domain host =
    text_eq (map to_ascii_lowercase host) (text "localhost") || ends_with host (text ".local")

validate_host : Option Host → Result UrlSafetyError (Unit {0})
validate_host none = err missing_host
validate_host (some (domain host)) = if is_local_domain host then err non_public_target else ok tt
validate_host (some (ip a)) = validate_public_ip a

unfoldable pub validate_health_url : Url → Result UrlSafetyError (Unit {0})
unfolding validate_host
validate_health_url url = do
  refuse_if (not (text_eq url.scheme (text "https"))) https_required
  refuse_if (not (is_empty url.username) || is_some url.password) embedded_credentials
  validate_host url.host

-- `trim_end_matches('.')`
abbrev dot_cons : ℕ → Text → Text
dot_cons c [] = if c == b'.' then [] else c ∷ []
dot_cons c (d ∷ s) = c ∷ d ∷ s

trim_end_dots : Text → Text
trim_end_dots [] = []
trim_end_dots (c ∷ s) = dot_cons c (trim_end_dots s)

unfoldable pub is_vercel_deployment_host : Text → Bool
unfolding trim_end_dots
is_vercel_deployment_host host =
    ends_with (map to_ascii_lowercase (trim_end_dots host)) (text ".vercel.app")
