-- ===== src/Policy/Client.antt =====
-- apps/api/src/policy-enforcement.mjs: createOpaPolicyDecisionClient. The schemas and the exchange with
-- the policy engine are parameters; whether the caller or the deadline has aborted the exchange is
-- read where it fails.
use tenant_trust.Common.{
  String, Bool, length, ◌==◌, ◌&&◌, if◌then◌else◌, includes, Result, ok, err, guard, ◌>>◌,
}
use tenant_trust.Js.{Value, get, keys, is_object}

pub record Aborted : Type 0 where
  pub cancelled : Bool
  pub timed_out : Bool

-- What comes of the exchange: no response, one that is not ok, one whose body cannot be read, or a body.
pub data Exchange : Type 0 where
  no_response : Aborted → Exchange
  not_ok : Exchange
  unreadable : Aborted → Exchange
  answered : Value → Exchange

pub record Schemas : Type 0 where
  pub validate_input : Value → Bool
  pub validate_output : Value → Bool

-- The code of an exchange that has failed.
unfoldable pub interrupted : Aborted → String → String
interrupted aborted code =
    if aborted.cancelled
    then "POLICY_REQUEST_CANCELLED"
    else if aborted.timed_out
    then "POLICY_REQUEST_TIMEOUT"
    else code

-- The body of a response, with exactly one property.
unfoldable pub read_result : Schemas → Value → Result Value
read_result schemas body = do
  guard (is_object body && length (keys body) == 1 && includes (keys body) "result")
      "POLICY_RESPONSE_INVALID"
  guard (schemas.validate_output (get body "result")) "POLICY_RESPONSE_INVALID"
  ok (get body "result")

unfoldable pub read_exchange : Schemas → Exchange → Result Value
unfolding interrupted read_result
read_exchange schemas (no_response aborted) = err (interrupted aborted "POLICY_REQUEST_FAILED")
read_exchange schemas not_ok = err "POLICY_RESPONSE_UNAVAILABLE"
read_exchange schemas (unreadable aborted) = err (interrupted aborted "POLICY_RESPONSE_INVALID")
read_exchange schemas (answered body) = read_result schemas body

-- `decide` of the client.
unfoldable pub request_decision : Schemas → (Value → Exchange) → Value → Result Value
unfolding read_exchange
request_decision schemas exchange input = do
  guard (schemas.validate_input input) "POLICY_INPUT_INVALID"
  read_exchange schemas (exchange input)
