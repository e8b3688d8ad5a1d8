-- ===== src/Ip/Xff.antt =====
-- `XffTrust` and `client_ip` of src/ip.rs: which client an `X-Forwarded-For` header stands for. The
-- log lines are left out. `parse_ip` is `str::parse::<IpAddr>`.
use filehost.Base.{
  ℕ, ◌-◌, max, Bool, true, false, Option, none, some, List, [], ◌∷◌, map, length, get_elem?, any,
  filter, Bytes, ltb, if◌then◌else◌, trim, split,
}
use filehost.Ip.Addr.{IpAddr}
use filehost.Ip.Cidr.{Cidr, parse, contains, unwrap_or, ◌>>=◌}

pub record XffTrust : Type 0 where
  pub proxies : List Cidr
  pub hops : ℕ

unfoldable pub untrusted : XffTrust
untrusted = record { proxies = []; hops = 1 }

-- `str::is_empty`.
abbrev pub is_empty : Bytes → Bool
is_empty [] = true
is_empty (c ∷ s) = false

module _ (parse_ip : Bytes → Option IpAddr) where
  -- The loop of `XffTrust::new`: the blocks that parse, and the trimmed entries that do not.
  unfoldable pub parse_entries : List Bytes → List Cidr × List Bytes
  parse_entries [] = ([], [])
  parse_entries (entry ∷ entries) =
      let (parsed, invalid) = parse_entries entries in
      if is_empty (trim entry) then (parsed, invalid) else elim (parse parse_ip entry) [
        | some cidr ↦ (cidr ∷ parsed, invalid)
        | none ↦ (parsed, trim entry ∷ invalid)
      ]

  -- `XffTrust::new`.
  unfoldable pub new : Option Bytes → ℕ → XffTrust × List Bytes
  new proxies hops =
      let (parsed, invalid) = parse_entries (split b',' (unwrap_or proxies [])) in
      (record { proxies = parsed; hops = max hops 1 }, invalid)

unfoldable pub trusts_peer : XffTrust → IpAddr → Bool
trusts_peer trust peer = any (λ cidr. contains cidr peer) trust.proxies

unfoldable pub proxy_count : XffTrust → ℕ
proxy_count trust = length trust.proxies

-- The header's entries, trimmed, without the empty ones.
unfoldable pub entries : Bytes → List Bytes
entries header = filter (λ e. if is_empty e then false else true) (map trim (split b',' header))

module _ (parse_ip : Bytes → Option IpAddr) where
  -- The entry `hops` places from the right, if the header reaches that far and it parses. For
  -- `hops` of at least 1 the index is in range.
  unfoldable pub forwarded : Bytes → ℕ → Option IpAddr
  forwarded header hops =
      let es = entries header in
      if ltb (length es) hops then none else (get_elem? es (length es - hops) >>= parse_ip)

  -- What a trusted peer's header says, or else the peer.
  abbrev pub vouched : Bytes → IpAddr → XffTrust → Option IpAddr
  vouched header peer trust = elim (forwarded header trust.hops) [
    | some ip ↦ some ip
    | none ↦ some peer
  ]

  unfoldable pub client_ip : Option Bytes → Option IpAddr → XffTrust → Option IpAddr
  client_ip (some header) (some peer) trust =
      if trusts_peer trust peer then vouched header peer trust else some peer
  client_ip none peer trust = peer
  client_ip (some header) none trust = none
