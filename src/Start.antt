-- ===== src/Start.antt =====
-- What `main` (src/main.rs) makes of the settings before it serves: the domains for TLS, the base
-- URL that the links stand on, the classifier, the trust of proxies and the log's format.
use filehost.Base.{
  ℕ, Bool, not, ltb, if◌then◌else◌, Option, none, some, List, [], ◌∷◌, ◌++◌, map, filter, Bytes,
  ascii, split, trim,
}
use filehost.Ip.Addr.{IpAddr}
use filehost.Ip.Xff.{XffTrust, proxy_count}
use filehost.Ip.Xff
use filehost.Handlers.Slug.{is_empty}
use filehost.Handlers.Reply.{Settings}

abbrev pub some_domains : List Bytes → Option (List Bytes)
some_domains [] = none
some_domains (d ∷ ds) = some (d ∷ ds)

-- `acme_domains`, from the setting.
unfoldable pub acme_domains : Option Bytes → Option (List Bytes)
acme_domains setting = elim setting [
  | none ↦ none
  | some domains ↦ some_domains (filter (λ s. not (is_empty s)) (map trim (split b',' domains)))
]

abbrev pub scheme : Option (List Bytes) → Bytes
scheme none = ascii "http"
scheme (some domains) = ascii "https"

-- The settings with the base URL set. `show` prints the port.
unfoldable pub with_base_url : (ℕ → Bytes) → Option (List Bytes) → Bytes → ℕ → Settings → Settings
with_base_url show domains listen_addr listen_port settings = elim settings.base_url [
  | some base ↦ settings
  | none ↦ record settings {
    base_url = some (
        scheme domains ++ ascii "://" ++ listen_addr ++ ascii ":" ++ show listen_port ++ ascii "/");
  }
]

-- `Settings::nsfw_model_path`: the setting, if a file stands there.
unfoldable pub nsfw_model_path : (Bytes → Bool) → Option Bytes → Option Bytes
nsfw_model_path is_file setting = elim setting [
  | none ↦ none
  | some path ↦ if is_file path then some path else none
]

-- The model that `main` hands to the handlers; `load` is `none` on a failure, which is only logged.
unfoldable pub nsfw_model :
    {M : Type 0} → (Bytes → Bool) → (Bytes → Option M) → Option Bytes → Option M
nsfw_model is_file load setting = elim (nsfw_model_path is_file setting) [
  | none ↦ none
  | some path ↦ load path
]

module _ (parse_ip : Bytes → Option IpAddr) where
  -- `Settings::xff_trust`, of the settings `trusted_proxies` and `xff_hops`.
  unfoldable pub xff_trust : Option Bytes → ℕ → XffTrust × List Bytes
  xff_trust trusted_proxies xff_hops = Xff.new parse_ip trusted_proxies xff_hops

  -- Whether the client's address in the log is the one that the headers name.
  unfoldable pub xff_credible : Option Bytes → ℕ → Bool
  xff_credible trusted_proxies xff_hops =
      ltb 0 (proxy_count ((xff_trust trusted_proxies xff_hops).0))

-- The format of the access log.
unfoldable pub log_format : Bool → Bytes
log_format credible =
    if credible
    then ascii "%{r}a %t \"%r\" %s %b \"%{Referer}i\" \"%{User-Agent}i\" %T"
    else ascii "%a %t \"%r\" %s %b \"%{Referer}i\" \"%{User-Agent}i\" %T"
