-- ===== src/Aptos/Errors.antt =====
-- internal/aptos/client.go: how the errors and statuses of the node are classified.
use circle_wallet_service.Prelude.{
  ℕ, Bool, true, false, ◌||◌, String, ◌==◌, nat_eq, map, if◌then◌else◌,
}
use circle_wallet_service.Text.{runes, to_lower, to_upper, occurs_in}

-- An `error`, by what `errors.As` finds in it, with its `Error()` text: a `SimulateHTTPError` with
-- its status code, a `net.Error`, or any other.
pub data GoError : Type 0 where
  simulate_http : ℕ → String → GoError
  net_error plain_error : String → GoError

abbrev pub error_text : GoError → String
error_text (simulate_http code text) = text
error_text (net_error text) = text
error_text (plain_error text) = text

-- strings.Contains(strings.ToLower(s), part)
unfoldable pub lower_contains : String → String → Bool
unfolding to_lower occurs_in
lower_contains s part = occurs_in (runes part) (map to_lower (runes s))

unfoldable pub upper_contains : String → String → Bool
unfolding to_upper occurs_in
upper_contains s part = occurs_in (runes part) (map to_upper (runes s))

unfoldable pub is_sequence_vm_status : String → Bool
is_sequence_vm_status vm_status =
    if vm_status == ""
    then false
    else upper_contains vm_status "SEQUENCE_NUMBER_TOO_OLD"
      || (upper_contains vm_status "SEQUENCE_NUMBER_TOO_NEW"
          || upper_contains vm_status "SEQUENCE_NUMBER_TOO_BIG")

unfoldable pub is_transient_simulation_error : GoError → Bool
is_transient_simulation_error (simulate_http code text) = nat_eq code 429 || nat_eq code 503
is_transient_simulation_error (net_error text) = true
is_transient_simulation_error (plain_error text) =
    lower_contains text "timeout"
    || (lower_contains text "connection refused" || lower_contains text "eof")
