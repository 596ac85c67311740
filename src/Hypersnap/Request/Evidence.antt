-- ===== src/Hypersnap/Request/Evidence.antt =====
-- What the evidence of a request says.
use psky.Prelude.{
  ℕ, ◌+◌, ◌-◌, ◌^◌, min, ◌≤◌, ◌<◌, ◌≡◌, refl, sym, ◌∙◌, inl, inr, true, false, Bool-cases, Option,
  none, some, Option-cases, map_or, is_some, Bytes, List, [], ◌++◌, arith, ltb, length,
  length-append,
}
use mathlib.Core.Path.{subst}
use psky.Json.{Value}
use psky.Url.{Url}
use psky.Http.{Body, end, broken, chunk, Response, failed, answered}
use psky.Hypersnap.Types.{malformed, RequestEvidence, PreflightConfig}
use psky.Hypersnap.Request.{Web, is_success, read_body, read_value, read_response, request}

-- The evidence of a read: a failure where there is nothing, and the number of bytes otherwise.
abbrev Tells : RequestEvidence → ℕ → Option Bytes × RequestEvidence → Type 0
Tells before limit (none, evidence) =
    (evidence.route ≡ before.route) × (is_some evidence.failure ≡ true)
Tells before limit (some bytes, evidence) =
    (evidence.route ≡ before.route)
    × (evidence.failure ≡ none)
    × (evidence.status ≡ before.status)
    × (evidence.response_bytes ≡ length bytes)
    × (length bytes ≤ limit)

read_body-Tells :
    (limit : ℕ) (body : Body) (evidence : RequestEvidence) (before : Bytes)
    → limit < 2 ^ 64 - 1
    → evidence.failure ≡ none
    → evidence.response_bytes ≡ length before
    → length before ≤ limit
    → Tells evidence limit (read_body limit body evidence before)
unfolding read_body
read_body-Tells limit end evidence before small clean counted le = (refl, clean, refl, counted, le)
read_body-Tells limit (broken is_timeout) evidence before small clean counted le = (refl, refl)
read_body-Tells limit (chunk bytes rest) evidence before small clean counted le =
    let received : RequestEvidence = record evidence {
      response_bytes = min (evidence.response_bytes + length bytes) (2 ^ 64 - 1);
    } in
    elim (Bool-cases (ltb limit received.response_bytes)) [
      | inl over ↦ rw over (refl, refl)
      | inr under ↦
          let fits : evidence.response_bytes + length bytes ≤ limit =
            ground (arith, under, small) in
          rw under (
            Tells-keeps evidence received limit (read_body limit rest received (before ++ bytes))
              refl refl
              (read_body-Tells limit rest received (before ++ bytes) small clean
                (omega (arith, counted, small, fits, length-append before bytes))
                (omega (arith, counted, fits, length-append before bytes))))
    ]
  where
    Tells-keeps :
        (a b : RequestEvidence) (limit : ℕ) (read : Option Bytes × RequestEvidence)
        → b.route ≡ a.route
        → b.status ≡ a.status
        → Tells b limit read
        → Tells a limit read
    Tells-keeps a b limit (none, e) p q h = (h.0 ∙ p, h.1)
    Tells-keeps a b limit (some bytes, e) p q h = (h.0 ∙ p, h.1, h.2 ∙ q, h.3, h.4)

-- The evidence of a request.
abbrev pub Witnesses : Bytes → ℕ → Option Value × RequestEvidence → Type 0
Witnesses route limit (none, evidence) =
    (evidence.route ≡ route) × (is_some evidence.failure ≡ true)
Witnesses route limit (some value, evidence) =
    (evidence.route ≡ route)
    × (evidence.failure ≡ none)
    × (evidence.response_bytes ≤ limit)
    × ((status : ℕ) × (evidence.status ≡ some status) × (is_success status ≡ true))

read_value-Witnesses :
    (from_slice : Bytes → Option Value) (limit status : ℕ) (before : RequestEvidence)
    (read : Option Bytes × RequestEvidence)
    → before.status ≡ some status
    → is_success status ≡ true
    → Tells before limit read
    → Witnesses before.route limit (read_value from_slice read)
unfolding read_value
read_value-Witnesses from_slice limit status before (none, evidence) known succeeds tells = tells
read_value-Witnesses from_slice limit status before (some bytes, evidence) known succeeds tells =
    elim (Option-cases (from_slice bytes)) [
      | inl bad ↦
          let failed_read : read_value from_slice (some bytes, evidence)
              ≡ (none, record evidence { failure = some malformed }) =
            rw (read_value, bad) refl in
          subst (Witnesses before.route limit) (sym failed_read) (tells.0, refl)
      | inr (value, good) ↦
          let value_read : read_value from_slice (some bytes, evidence) ≡ (some value, evidence) =
            rw (read_value, good) refl in
          subst (Witnesses before.route limit) (sym value_read)
            (tells.0, tells.1, omega (arith, tells.3, tells.4), (status, tells.2 ∙ known, succeeds))
    ]

-- A request tells the route that it asked, and gives a value exactly when it records no failure; the
-- status is then a success and the bytes are within the limit. The limit is taken to be below the
-- largest machine number.
pub request-Witnesses :
    (web : Web) (config : PreflightConfig) (endpoint : Url) (route : Bytes)
    (query : List (Bytes × Bytes))
    → config.max_response_bytes < 2 ^ 64 - 1
    → Witnesses route config.max_response_bytes (request web config endpoint route query)
unfolding request read_response
request-Witnesses web config endpoint route query small = go (web.send endpoint route query)
  where
    start : RequestEvidence
    start = record { route = route; status = none; response_bytes = 0; failure = none }

    go :
        (response : Response)
        → Witnesses route config.max_response_bytes
            (read_response web.from_slice config.max_response_bytes response start)
    go (failed is_timeout) = (refl, refl)
    go (answered status announced body) = elim (Bool-cases (is_success status)) [
      | inr refused ↦ rw refused (refl, refl)
      | inl succeeds ↦ elim (Bool-cases (map_or false (ltb config.max_response_bytes) announced)) [
        | inl over ↦ rw (succeeds, over) (refl, refl)
        | inr under ↦
            let received : RequestEvidence = record start { status = some status } in
            rw (succeeds, under)
              (read_value-Witnesses web.from_slice config.max_response_bytes status received
                (read_body config.max_response_bytes body received []) refl succeeds
                (read_body-Tells config.max_response_bytes body received [] small refl refl
                  (omega arith)))
      ]
    ]
