-- ===== src/Server/Routes.antt =====
-- The routes of cmd/server/main.go, and its reading of the Authorization header.
use Prim.Native.Char.{code}
use circle_wallet_service.Prelude.{
  ℕ, Bool, false, not, ◌&&◌, ◌||◌, List, [], ◌∷◌, String, ◌==◌, nat_eq, if◌then◌else◌, ◌≡◌, refl,
  ◌⊎◌, inl, inr, Bool-cases,
}
use circle_wallet_service.Text.{to_lower}

-- What http.ServeMux finds for a request: a handler, with the id in the path, or a status code.
pub data Endpoint : Type 0 where
  execute_endpoint query_endpoint health_endpoint : Endpoint
  transaction_endpoint webhooks_endpoint : String → Endpoint
  no_handler : ℕ → Endpoint

push_char : String → List String → List String
push_char c [] = c ∷ []
push_char String.[] (part ∷ parts) = part ∷ parts
push_char (String.◌∷◌ c s) (part ∷ parts) = String.◌∷◌ c part ∷ parts

-- The path between its slashes.
unfoldable pub segments : String → List String
unfolding push_char
segments String.[] = "" ∷ []
segments (String.◌∷◌ c s) =
    let rest = segments s in
    if nat_eq (code c) b'/' then "" ∷ rest else push_char (String.◌∷◌ c "") rest

is_dots : String → Bool
is_dots part = part == "." || part == ".."

-- Whether path.Clean would change the path: a "." or "..", or two slashes in a row.
is_unclean : List String → Bool
unfolding is_dots
is_unclean [] = false
is_unclean (part ∷ []) = is_dots part
is_unclean (part ∷ next ∷ parts) = is_dots part || (part == "" || is_unclean (next ∷ parts))

on_method : Bool → Endpoint → Endpoint
on_method allowed e = if allowed then e else no_handler 405

-- A route for GET serves HEAD too.
is_get : String → Bool
is_get method = method == "GET" || method == "HEAD"

-- The segments behind /v1/
matched : String → List String → Endpoint
unfolding on_method is_get
matched method (a ∷ []) =
    if a == "execute"
    then on_method (method == "POST") execute_endpoint
    else if a == "query"
    then on_method (method == "POST") query_endpoint
    else if a == "health"
    then on_method (is_get method) health_endpoint
    else no_handler 404
matched method (a ∷ id ∷ []) =
    if a == "transactions" && not (id == "")
    then on_method (is_get method) (transaction_endpoint id)
    else no_handler 404
matched method (a ∷ id ∷ b ∷ []) =
    if a == "transactions" && (not (id == "") && b == "webhooks")
    then on_method (is_get method) (webhooks_endpoint id)
    else no_handler 404
matched method _ = no_handler 404

behind_version : String → List String → Endpoint
unfolding matched
behind_version method (v ∷ rest) = if v == "v1" then matched method rest else no_handler 404
behind_version method [] = no_handler 404

routed : String → List String → Endpoint
unfolding behind_version is_unclean
routed method (root ∷ rest) = if is_unclean rest then no_handler 301 else behind_version method rest
routed method [] = no_handler 404

unfoldable pub route : String → String → Endpoint
unfolding routed segments
route method path = routed method (segments path)

-- The text behind a prefix, whatever the case of its letters.
strip_fold : String → String → String → String
strip_fold whole String.[] text = text
strip_fold whole (String.◌∷◌ p part) String.[] = whole
strip_fold whole (String.◌∷◌ p part) (String.◌∷◌ c text) =
    let rest = strip_fold whole part text in
    if nat_eq (to_lower (code c)) (to_lower (code p)) then rest else whole

unfoldable pub extract_bearer_token : String → String
unfolding strip_fold to_lower
extract_bearer_token header = strip_fold header "Bearer " header

-- The path of the health check is no other route.
pub route_health :
    (method : String)
    → (route method "/v1/health" ≡ health_endpoint) ⊎ (route method "/v1/health" ≡ no_handler 405)
unfolding route
route_health method = elim (Bool-cases (is_get method)) [
  | inl e ↦ inl (rw (e, route) refl)
  | inr e ↦ inr (rw (e, route) refl)
]
