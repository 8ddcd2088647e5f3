-- ===== src/HttpUtil.antt =====
-- api/app/http_util.py: the client's address and scheme behind a proxy. The library `ipaddress`
-- (addresses, networks, membership), white space and `str.lower` are the parameters of `Addresses`.
pub mod Spoofing
use ev211_field_server.Base.{
  ℕ, Bool, true, false, ◌&&◌, not, Option, none, some, List, [], ◌∷◌, ◌++◌, Text, codes, ◌==◌,
  nat_eq, text_eq, if◌then◌else◌, any, keep, map,
}
use ev211_field_server.State.{is_empty_text}
use ev211_field_server.Utterances.{rstrip}

pub record Addresses : Type 1 where
  pub Address : Type 0
  pub Network : Type 0
  -- `none` is a ValueError.
  pub ip_address : Text → Option Address
  pub ip_network : Text → Option Network
  pub is_member : Address → Network → Bool
  pub is_space : ℕ → Bool
  pub lower : Text → Text

-- The parts of a request that are read.
pub record Request : Type 0 where
  pub client_host : Option Text
  pub forwarded_for : Option Text
  pub forwarded_proto : Option Text
  pub scheme : Text

abbrev pub on_first : ℕ → List Text → List Text
on_first c [] = (c ∷ []) ∷ []
on_first c (p ∷ ps) = (c ∷ p) ∷ ps

-- `str.split(",")`
unfoldable pub split_commas : Text → List Text
split_commas [] = [] ∷ []
split_commas (c ∷ s) = let rest = split_commas s in if c == b',' then [] ∷ rest else on_first c rest

abbrev pub host_or_unknown : Option Text → Text
host_or_unknown none = codes "unknown"
host_or_unknown (some host) = host

abbrev pub first_or : Text → List Text → Text
first_or d [] = d
first_or d (p ∷ ps) = p

module _ (u : Addresses) where
  abbrev pub lstrip : Text → Text
  lstrip [] = []
  lstrip (c ∷ s) = let rest = lstrip s in if u.is_space c then rest else c ∷ s

  -- `[p.strip() for p in s.split(",") if p.strip()]`
  abbrev pub stripped_parts : List Text → List Text
  stripped_parts ps = keep (λ p. not (is_empty_text p)) (map (λ p. rstrip u.is_space (lstrip p)) ps)

  abbrev pub add_network : Option u.Network → List u.Network → List u.Network
  add_network none nets = nets
  add_network (some net) nets = net ∷ nets

  -- The tokens that are no network are left out.
  unfoldable pub networks_of : List Text → List u.Network
  networks_of [] = []
  networks_of (t ∷ ts) = add_network (u.ip_network t) (networks_of ts)

  -- `_parse_networks`
  unfoldable pub parse_networks : Text → List u.Network
  parse_networks allow_ips = networks_of (stripped_parts (split_commas allow_ips))

  abbrev pub in_networks : Option u.Address → List u.Network → Bool
  in_networks none nets = false
  in_networks (some a) nets = any (λ net. u.is_member a net) nets

  -- `_is_trusted`
  unfoldable pub is_trusted : Text → Text → Bool
  is_trusted allow_ips ip = in_networks (u.ip_address ip) (parse_networks allow_ips)

  -- The first entry from the right that is not trusted.
  unfoldable pub last_untrusted : Text → List Text → Option Text
  last_untrusted allow_ips [] = none
  last_untrusted allow_ips (p ∷ ps) = elim (last_untrusted allow_ips ps) [
    | some ip ↦ some ip
    | none ↦ if is_trusted allow_ips p then none else some p
  ]

  abbrev pub chosen : Option Text → Text → List Text → Text
  chosen (some ip) peer parts = ip
  chosen none peer parts = first_or peer parts

  unfoldable pub from_header : Text → Text → Option Text → Text
  from_header allow_ips peer none = peer
  from_header allow_ips peer (some []) = peer
  from_header allow_ips peer (some (c ∷ s)) =
      let parts = stripped_parts (split_commas (c ∷ s)) in
      chosen (last_untrusted allow_ips parts) peer parts

  unfoldable pub client_ip : Request → Text → Text
  client_ip r allow_ips =
      let peer = host_or_unknown r.client_host in
      if not (is_trusted allow_ips peer) then peer else from_header allow_ips peer r.forwarded_for

  abbrev pub is_https_scheme : Request → Bool
  is_https_scheme r = r.scheme == codes "https"

  -- The first of the comma-separated values, without the white space at its ends.
  unfoldable pub https_from_header : Request → Option Text → Bool
  https_from_header r none = is_https_scheme r
  https_from_header r (some []) = is_https_scheme r
  https_from_header r (some (c ∷ s)) =
      u.lower (rstrip u.is_space (lstrip (first_or [] (split_commas (c ∷ s))))) == codes "https"

  unfoldable pub is_https : Request → Text → Bool
  is_https r allow_ips =
      if is_trusted allow_ips (host_or_unknown r.client_host)
      then https_from_header r r.forwarded_proto
      else is_https_scheme r
