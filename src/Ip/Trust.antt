-- ===== src/Ip/Trust.antt =====
-- Who decides the client address: only trusted peers, and of their header only the last hops.
use mathlib.Core.List.{map-append}
use filehost.Base.{
  ℕ, ◌-◌, ◌≤◌, ◌≡◌, refl, ◌↔◌, ◌⊎◌, inl, inr, Bool, true, Option, none, some, List, [], ◌∷◌, ◌++◌,
  map, arith, length, length-append, get_elem?-append_right, filter, Bytes, ◌==◌, split, trim,
  Bool-cases, Option-cases,
}
use filehost.Ip.Addr.{IpAddr}
use filehost.Ip.Xff.{XffTrust, parse_entries, new, trusts_peer, entries, forwarded, client_ip}

split-cons : (sep : ℕ) (s : Bytes) → (p : Bytes) × (ps : List Bytes) × (split sep s ≡ p ∷ ps)
split-cons sep [] = ([], [], refl)
split-cons sep (c ∷ s) =
    let (p, ps, e) = split-cons sep s in
    elim (Bool-cases (c == sep)) [
      | inl t ↦ ([], split sep s, rw t)
      | inr t ↦ (c ∷ p, ps, rw (t, e))
    ]

-- Splitting a text that was joined by the separator splits the two sides.
pub split-append : (sep : ℕ) (a b : Bytes) → split sep (a ++ (sep ∷ b)) ≡ split sep a ++ split sep b
split-append sep [] b = ground arith
split-append sep (c ∷ a) b =
    let (p, ps, e) = split-cons sep a in
    elim (Bool-cases (c == sep)) [
      | inl t ↦ rw (split-append sep a b, t)
      | inr t ↦ rw (split-append sep a b, t, e)
    ]

filter-append {ℓ} :
    {A : Type ℓ} (p : A → Bool) (xs ys : List A) → filter p (xs ++ ys) ≡ filter p xs ++ filter p ys
filter-append p [] ys = refl
filter-append p (x ∷ xs) ys = ground (arith, filter-append p xs ys)

entries-append : (a b : Bytes) → entries (a ++ (b',' ∷ b)) ≡ entries a ++ entries b
unfolding entries
entries-append a b =
    rw (split-append b',' a b, map-append)
      (filter-append _ (map trim (split b',' a)) (map trim (split b',' b)))

module _ (parse_ip : Bytes → Option IpAddr) where
  forwarded-append :
      (a b : Bytes) (hops : ℕ)
      → hops ≤ length (entries b)
      → forwarded parse_ip (a ++ (b',' ∷ b)) hops ≡ forwarded parse_ip b hops
  unfolding forwarded
  forwarded-append a b hops h = rw (entries-append a b) (
      ground (
        arith,
        length-append (entries a) (entries b),
        get_elem?-append_right (entries a) (entries b) (length (entries b) - hops),
      ))

  -- What a client writes in front of a header that already has an entry for each hop changes
  -- nothing: whoever appended the last `hops` entries decides.
  pub client_ip-append :
      (spoofed header : Bytes) (peer : Option IpAddr) (trust : XffTrust)
      → trust.hops ≤ length (entries header)
      → client_ip parse_ip (some (spoofed ++ (b',' ∷ header))) peer trust
        ≡ client_ip parse_ip (some header) peer trust
  unfolding client_ip
  client_ip-append spoofed header none trust h = refl
  client_ip-append spoofed header (some peer) trust h =
      ground (arith, forwarded-append spoofed header trust.hops h)

  -- The client of a connection is the socket peer, or what the header of a peer in a configured
  -- block says at the hop count. No peer, no client.
  pub client_ip-cases :
      (xff : Option Bytes) (peer : Option IpAddr) (trust : XffTrust)
      → (client_ip parse_ip xff peer trust ≡ peer)
        ⊎ ((header : Bytes) × (proxy ip : IpAddr) × (xff ≡ some header)
            × (peer ≡ some proxy)
            × (trusts_peer trust proxy ≡ true)
            × (forwarded parse_ip header trust.hops ≡ some ip)
            × (client_ip parse_ip xff peer trust ≡ some ip))
  unfolding client_ip
  client_ip-cases none peer trust = inl refl
  client_ip-cases (some header) none trust = inl refl
  client_ip-cases (some header) (some peer) trust = elim (Bool-cases (trusts_peer trust peer)) [
    | inr no_trust ↦ inl (rw no_trust)
    | inl trusted ↦ elim (Option-cases (forwarded parse_ip header trust.hops)) [
      | inl unusable ↦ inl (ground arith)
      | inr (ip, found) ↦ inr (header, peer, ip, refl, refl, trusted, found, ground arith)
    ]
  ]

  -- A client address is there exactly when the socket has a peer.
  pub client_ip-eq-none_iff :
      (xff : Option Bytes) (peer : Option IpAddr) (trust : XffTrust)
      → (client_ip parse_ip xff peer trust ≡ none) ↔ (peer ≡ none)
  unfolding client_ip
  client_ip-eq-none_iff none peer trust = (λ h. h, λ h. h)
  client_ip-eq-none_iff (some header) none trust = (λ h. h, λ h. h)
  client_ip-eq-none_iff (some header) (some peer) trust = ground arith

  -- The configured hop count is at least one, whatever the setting, and with no proxies configured
  -- every client is its socket peer.
  pub new_lem :
      (proxies : Option Bytes) (hops : ℕ) (xff : Option Bytes) (peer : Option IpAddr)
      → (1 ≤ (new parse_ip proxies hops).0.hops)
        × (client_ip parse_ip xff peer (new parse_ip none hops).0 ≡ peer)
  unfolding new client_ip trusts_peer parse_entries trim
  new_lem proxies hops none peer = (omega arith, refl)
  new_lem proxies hops (some header) none = (omega arith, refl)
  new_lem proxies hops (some header) (some peer) = (omega arith, refl)
