-- ===== src/Handler/WebhookUrl.antt =====
-- internal/handler/webhookurl.go: which URLs a webhook may have. The parser of URLs and addresses, the
-- resolver and the classes of addresses are those of Go's standard library.
use circle_wallet_service.Prelude.{
  Bool, true, false, not, ◌&&◌, ◌||◌, Option, none, some, List, [], ◌∷◌, String, ◌==◌,
  if◌then◌else◌, Result, ok, err,
}
use circle_wallet_service.Text.{concat}

pub record Net : Type 1 where
  pub Url : Type 0
  pub Ip : Type 0
  -- url.Parse, u.Scheme in lower case, u.Hostname()
  pub parse_url : String → Result String Url
  pub lower_scheme : Url → String
  pub hostname : Url → String
  pub parse_ip : String → Option Ip
  pub lookup_ip : String → Result String (List Ip)
  -- strings.EqualFold
  pub equal_fold : String → String → Bool
  pub is_loopback : Ip → Bool
  pub is_private : Ip → Bool
  pub is_link_local_unicast : Ip → Bool
  pub is_link_local_multicast : Ip → Bool
  pub is_unspecified : Ip → Bool

module _ (net : Net) where
  open net use {Url, Ip}

  unfoldable pub is_private_ip : Ip → Bool
  is_private_ip ip =
      net.is_loopback ip
      || (net.is_private ip
          || (net.is_link_local_unicast ip
              || (net.is_link_local_multicast ip || net.is_unspecified ip)))

  any_private : List Ip → Bool
  any_private [] = false
  any_private (ip ∷ ips) = is_private_ip ip || any_private ips

  unfoldable pub is_private_host : String → Bool
  unfolding any_private
  is_private_host host = elim (net.parse_ip host) [
    | some ip ↦ is_private_ip ip
    | none ↦
        if net.equal_fold host "localhost"
        then true
        else elim (net.lookup_ip host) [ err _ ↦ false | ok ips ↦ any_private ips ]
  ]

  check_url : Url → Result String (Unit {0})
  check_url u =
      if not (net.lower_scheme u == "http") && not (net.lower_scheme u == "https")
      then err "webhook_url scheme must be http or https"
      else if net.hostname u == ""
      then err "webhook_url must have a hostname"
      else if is_private_host (net.hostname u)
      then err "webhook_url must not target private or loopback addresses"
      else ok tt

  unfoldable pub validate_webhook_url : String → Result String (Unit {0})
  unfolding check_url
  validate_webhook_url raw = elim (net.parse_url raw) as (λ _. Result String (Unit {0})) [
    | err e ↦ err (concat "invalid URL: " e)
    | ok u ↦ check_url u
  ]
