-- ===== src/Webhook/Dial.antt =====
-- The dialer and the redirect check of internal/webhook/worker.go. The addresses that are dialled are
-- kept in a list; the resolver, the parsers and the connections are those of Go's standard library.
use circle_wallet_service.Prelude.{
  ℕ, ◌<◌, ◌≡◌, Bool, false, not, ◌&&◌, ◌||◌, Option, none, some, List, [], ◌∷◌, arith, String, ◌==◌,
  if◌then◌else◌, Bool-cases, inl, inr, Result, ok, err, leb, All, Option-cases, Result-cases, ◌⊎◌,
  eq_iff,
}
use circle_wallet_service.Text.{concat}
use circle_wallet_service.Handler.WebhookUrl.{Net}

-- The standard library's part that the worker uses and the handler does not.
pub record Wire (net : Net) : Type 1 where
  pub Conn : Type 0
  pub split_host_port : String → Result String (String × String)
  pub ip_string : net.Ip → String
  -- %q
  pub quote : String → String
  -- u.Scheme
  pub scheme : net.Url → String
  -- dialer.DialContext to an address, at a port
  pub connect : net.Ip → String → Result String Conn

module _ (net : Net) (wire : Wire net) where
  open net use {Url, Ip}
  open wire use {Conn}

  -- isPrivateIP; the addresses here come from a parser and a resolver, which give no nil.
  unfoldable pub refuses : Ip → Bool
  refuses ip =
      net.is_loopback ip
      || (net.is_private ip
          || (net.is_link_local_unicast ip
              || (net.is_link_local_multicast ip || net.is_unspecified ip)))

  refusal : String → Ip → String
  refusal why ip = concat why (wire.ip_string ip)

  -- A message with a quoted text and, in the second form, the error that it wraps.
  abbrev pub about : String → String → String
  about what text = concat what (wire.quote text)

  abbrev pub wraps : String → String → String → String
  wraps what text why = concat (about what text) (concat ": " why)

  -- The first address of a list that is refused.
  unfoldable pub first_refused : List Ip → Option Ip
  first_refused [] = none
  first_refused (ip ∷ ips) = if refuses ip then some ip else first_refused ips

  -- Dials one address after another until one answers.
  dial_each : String → String → Option String → List Ip → Result String Conn × List Ip
  dial_each host port none [] = (err (about "no usable addresses for " host), [])
  dial_each host port (some last) [] = (err last, [])
  dial_each host port last (ip ∷ ips) =
      elim (wire.connect ip port) as (λ _. Result String Conn × List Ip) [
        | ok conn ↦ (ok conn, ip ∷ [])
        | err why ↦ let rest = dial_each host port (some why) ips in (rest.0, ip ∷ rest.1)
      ]

  dial_host : String → String → Result String Conn × List Ip
  unfolding first_refused refusal dial_each
  dial_host host port = elim (net.parse_ip host) as (λ _. Result String Conn × List Ip) [
    | some ip ↦
        if refuses ip
        then (err (refusal "webhook: refusing to connect to private address " ip), [])
        else (wire.connect ip port, ip ∷ [])
    | none ↦ elim (net.lookup_ip host) as (λ _. Result String Conn × List Ip) [
      | err why ↦ (err (wraps "webhook: resolve " host why), [])
      | ok ips ↦ elim (first_refused ips) as (λ _. Result String Conn × List Ip) [
        | some ip ↦ (err (refusal "webhook: refusing to connect to private address " ip), [])
        | none ↦ dial_each host port none ips
      ]
    ]
  ]

  unfoldable pub ssrf_safe_dial : String → Result String Conn × List Ip
  unfolding dial_host
  ssrf_safe_dial addr = elim (wire.split_host_port addr) as (λ _. Result String Conn × List Ip) [
    | err why ↦ (err (wraps "webhook: invalid address " addr why), [])
    | ok (host, port) ↦ dial_host host port
  ]

  -- `via` requests have been made before this one.
  check_host : String → Result String (Unit {0})
  unfolding first_refused refusal
  check_host host = elim (net.parse_ip host) as (λ _. Result String (Unit {0})) [
    | some ip ↦
        if refuses ip
        then err (refusal "webhook: refusing redirect to private address " ip)
        else ok tt
    | none ↦ elim (net.lookup_ip host) as (λ _. Result String (Unit {0})) [
      | err why ↦ err (wraps "webhook: resolve redirect host " host why)
      | ok ips ↦ elim (first_refused ips) as (λ _. Result String (Unit {0})) [
        | some ip ↦ err (refusal "webhook: refusing redirect to private address " ip)
        | none ↦ ok tt
      ]
    ]
  ]

  unfoldable pub validate_redirect_url : Url → Result String (Unit {0})
  unfolding check_host
  validate_redirect_url u =
      if not (net.lower_scheme u == "http") && not (net.lower_scheme u == "https")
      then err (about "webhook: refusing redirect to scheme " (wire.scheme u))
      else if net.hostname u == ""
      then err "webhook: redirect URL has no host"
      else check_host (net.hostname u)

  unfoldable pub check_redirect : Url → ℕ → Result String (Unit {0})
  check_redirect u via =
      if leb 5 via then err "webhook: stopped after 5 redirects" else validate_redirect_url u

  abbrev pub IsPublic : Ip → Type 0
  IsPublic ip = refuses ip ≡ false

  first_refused-All : (ips : List Ip) → first_refused ips ≡ none → All IsPublic ips
  unfolding first_refused
  first_refused-All [] h = tt
  first_refused-All (ip ∷ ips) h = elim (Bool-cases (refuses ip)) [
    | inl e ↦ absurd (ground (arith, e))
    | inr e ↦ (e, first_refused-All ips (rw e at h))
  ]

  dial_each-All :
      (host port : String) (last : Option String) (ips : List Ip)
      → All IsPublic ips
      → All IsPublic (dial_each host port last ips).1
  unfolding dial_each
  dial_each-All host port none [] h = tt
  dial_each-All host port (some last) [] h = tt
  dial_each-All host port none (ip ∷ ips) h = elim (Result-cases (wire.connect ip port)) [
    | inl (conn, e) ↦ rw (All, e) (h.0, tt)
    | inr (why, e) ↦ rw (All, e) (h.0, dial_each-All host port (some why) ips h.1)
  ]
  dial_each-All host port (some last) (ip ∷ ips) h = elim (Result-cases (wire.connect ip port)) [
    | inl (conn, e) ↦ rw (All, e) (h.0, tt)
    | inr (why, e) ↦ rw (All, e) (h.0, dial_each-All host port (some why) ips h.1)
  ]

  dial_host-All : (host port : String) → All IsPublic (dial_host host port).1
  unfolding dial_host
  dial_host-All host port = elim (Option-cases (net.parse_ip host)) [
    | inl e ↦ elim (Result-cases (net.lookup_ip host)) [
      | inr (why, f) ↦ rw (All, e, f) tt
      | inl (ips, f) ↦ elim (Option-cases (first_refused ips)) [
        | inl g ↦ rw (All, e, f, g) (dial_each-All host port none ips (first_refused-All ips g))
        | inr (ip, g) ↦ rw (All, e, f, g) tt
      ]
    ]
    | inr (ip, e) ↦ elim (Bool-cases (refuses ip)) [
      | inl f ↦ rw (All, e, f) tt
      | inr f ↦ rw (All, e, f) (f, tt)
    ]
  ]

  -- Every address that the dialer connects to is public: none is loopback, private, link-local or
  -- unspecified, whatever the resolver answers.
  pub dial_safe : (addr : String) → All IsPublic (ssrf_safe_dial addr).1
  unfolding ssrf_safe_dial
  dial_safe addr = elim (Result-cases (wire.split_host_port addr)) [
    | inr (why, e) ↦ rw (All, e) tt
    | inl ((host, port), e) ↦ rw (All, e) (dial_host-All host port)
  ]

  -- What a host stands for: its own address, or those that the resolver gives.
  abbrev pub Resolves : String → List Ip → Type 0
  Resolves host ips = (net.parse_ip host ≡ none) × (net.lookup_ip host ≡ ok ips)

  check_host-safe :
      (host : String)
      → check_host host ≡ ok tt
      → ((ip : Ip) → net.parse_ip host ≡ some ip → IsPublic ip)
        × ((ips : List Ip) → Resolves host ips → All IsPublic ips)
  unfolding check_host
  check_host-safe host h =
      (λ ip e. ground (arith, h, e), λ ips r. first_refused-All ips (ground (arith, h, r.0, r.1)))

  -- A redirect is followed only if fewer than five came before it, its scheme is http or https, and its
  -- host is a public address, or a name all of whose addresses are public.
  pub check_redirect_safe :
      (u : Url) (via : ℕ)
      → check_redirect u via ≡ ok tt
      → (via < 5)
        × (((net.lower_scheme u ≡ "http") ⊎ (net.lower_scheme u ≡ "https"))
            × (((ip : Ip) → net.parse_ip (net.hostname u) ≡ some ip → IsPublic ip)
                × ((ips : List Ip) → Resolves (net.hostname u) ips → All IsPublic ips)))
  unfolding check_redirect validate_redirect_url
  check_redirect_safe u via h = (
    ground (arith, h),
    (
      ground (arith, h, eq_iff (net.lower_scheme u) "http", eq_iff (net.lower_scheme u) "https"),
      check_host-safe (net.hostname u) (ground (arith, h)),
    ),
  )
