-- ===== src/Hypersnap/Request.antt =====
-- `request` of crates/psky-hypersnap/src/lib.rs: one bounded read and the evidence of it.
pub mod Reading
pub mod Evidence
use psky.Prelude.{
  ℕ, ◌+◌, Bool, true, false, not, ◌&&◌, ◌||◌, Option, none, some, Bytes, map_or, List, ◌++◌, [],
  leb, ltb, ◌==◌, if◌then◌else◌, length,
}
use psky.Json.{Value}
use psky.Url.{Url}
use psky.Http.{Body, end, broken, chunk, Response, failed, answered}
use psky.Hypersnap.Types.{
  Failure, timeout, transport, redirect, unavailable, http_status, oversized, malformed,
  RequestEvidence, PreflightConfig,
}
use psky.Hypersnap.Parse.{saturating_add}

-- What the client meets: the answer to a route of an endpoint under a query, and the crate `serde_json`.
pub record Web : Type 0 where
  pub send : Url → Bytes → List (Bytes × Bytes) → Response
  pub from_slice : Bytes → Option Value

unfoldable pub classify_transport : Bool → Failure
classify_transport is_timeout = if is_timeout then timeout else transport

unfoldable pub is_success : ℕ → Bool
is_success status = leb 200 status && ltb status 300

unfoldable pub is_redirection : ℕ → Bool
is_redirection status = leb 300 status && ltb status 400

-- The failure of a status that is no success.
unfoldable pub status_failure : ℕ → Failure
unfolding is_redirection
status_failure status =
    if is_redirection status
    then redirect
    else if status == 404 || status == 501
    then unavailable
    else http_status

abbrev with_failure : RequestEvidence → Failure → RequestEvidence
with_failure evidence failure = record evidence { failure = some failure }

-- The loop over the chunks, behind the bytes `body`, up to the limit.
unfoldable pub read_body : ℕ → Body → RequestEvidence → Bytes → Option Bytes × RequestEvidence
unfolding classify_transport
read_body limit end evidence body = (some body, evidence)
read_body limit (broken is_timeout) evidence body =
    (none, with_failure evidence (classify_transport is_timeout))
read_body limit (chunk bytes rest) evidence body =
    let counted : RequestEvidence = record evidence {
      response_bytes = saturating_add evidence.response_bytes (length bytes);
    } in
    let read = read_body limit rest counted (body ++ bytes) in
    if ltb limit counted.response_bytes then (none, with_failure counted oversized) else read

-- The JSON of a body that was read.
unfoldable pub read_value :
    (Bytes → Option Value) → Option Bytes × RequestEvidence → Option Value × RequestEvidence
read_value from_slice (none, evidence) = (none, evidence)
read_value from_slice (some body, evidence) = elim (from_slice body) [
  | some value ↦ (some value, evidence)
  | none ↦ (none, with_failure evidence malformed)
]

unfoldable pub read_response :
    (Bytes → Option Value) → ℕ → Response → RequestEvidence → Option Value × RequestEvidence
unfolding classify_transport is_success status_failure read_body read_value
read_response from_slice limit (failed is_timeout) evidence =
    (none, with_failure evidence (classify_transport is_timeout))
read_response from_slice limit (answered status content_length body) evidence =
    let received : RequestEvidence = record evidence { status = some status } in
    if not (is_success status)
    then (none, with_failure received (status_failure status))
    else if map_or false (ltb limit) content_length
    then (none, with_failure received oversized)
    else read_value from_slice (read_body limit body received [])

unfoldable pub request :
    Web → PreflightConfig → Url → Bytes → List (Bytes × Bytes) → Option Value × RequestEvidence
unfolding read_response
request web config endpoint route query =
    read_response web.from_slice config.max_response_bytes (web.send endpoint route query)
      (record { route = route; status = none; response_bytes = 0; failure = none })
