-- ===== src/Hypersnap/Request/Reading.antt =====
-- Which responses a bounded read accepts.
use psky.Prelude.{
  ℕ, ◌+◌, ◌-◌, ◌^◌, min, ◌≤◌, ◌<◌, ◌≡◌, ◌↔◌, refl, sym, ap, ◌∙◌, inl, inr, true, false, Bool-cases,
  Option, none, some, map_or, Bytes, List, [], ◌++◌, arith, leb, leb→le, ltb, length, length-append,
  if◌then◌else◌,
}
use mathlib.Core.List.{append_assoc, append-nil}
use mathlib.Core.Path.{subst}
use psky.Prelude.Optional.{◌>>=◌, on_some, some-injective}
use psky.Json.{Value}
use psky.Url.{Url}
use psky.Http.{Body, end, broken, chunk, Response, failed, answered}
use psky.Hypersnap.Types.{RequestEvidence, PreflightConfig}
use psky.Hypersnap.Request.{Web, is_success, read_body, read_value, read_response, request}

abbrev behind : Bytes → Option Bytes → Option Bytes
behind bytes none = none
behind bytes (some more) = some (bytes ++ more)

-- What a body holds, where it arrives as a whole.
unfoldable pub content : Body → Option Bytes
content end = some []
content (broken is_timeout) = none
content (chunk bytes rest) = behind bytes (content rest)

abbrev within : ℕ → Bytes → Option Bytes → Option Bytes
within limit before none = none
within limit before (some bytes) =
    if leb (length (before ++ bytes)) limit then some (before ++ bytes) else none

within_over :
    (limit : ℕ) (before bytes : Bytes) (rest : Option Bytes)
    → limit < length before + length bytes
    → within limit before (behind bytes rest) ≡ none
within_over limit before bytes none over = refl
within_over limit before bytes (some more) over =
    ground (arith, over, length-append before (bytes ++ more), length-append bytes more)

within-behind :
    (limit : ℕ) (before bytes : Bytes) (rest : Option Bytes)
    → within limit (before ++ bytes) rest ≡ within limit before (behind bytes rest)
within-behind limit before bytes none = refl
within-behind limit before bytes (some more) = rw (append_assoc) refl

-- The loop reads the whole body or nothing.
read_body-eq :
    (limit : ℕ) (body : Body) (evidence : RequestEvidence) (before : Bytes)
    → limit < 2 ^ 64 - 1
    → evidence.response_bytes ≡ length before
    → length before ≤ limit
    → (read_body limit body evidence before).0 ≡ within limit before (content body)
unfolding read_body content
read_body-eq limit end evidence before small counted le = rw append-nil (ground (arith, le))
read_body-eq limit (broken is_timeout) evidence before small counted le = refl
read_body-eq limit (chunk bytes rest) evidence before small counted le =
    let received : RequestEvidence = record evidence {
      response_bytes = min (evidence.response_bytes + length bytes) (2 ^ 64 - 1);
    } in
    elim (Bool-cases (ltb limit received.response_bytes)) [
      | inl over ↦
          rw over
            (sym (within_over limit before bytes (content rest) (ground (arith, over, counted))))
      | inr under ↦
          let fits : evidence.response_bytes + length bytes ≤ limit =
            ground (arith, under, small) in
          rw under (
            read_body-eq limit rest received (before ++ bytes) small
              (omega (arith, counted, small, fits, length-append before bytes))
              (omega (arith, counted, fits, length-append before bytes))
            ∙ within-behind limit before bytes (content rest))
    ]

-- A response that is good enough: a success that announces no more than the limit, and a body that
-- arrives as a whole, is within the limit, and is the value as JSON.
pub record Carries (from_slice : Bytes → Option Value) (limit : ℕ) (response : Response)
    (value : Value) : Type 0 where
  pub status : ℕ
  pub announced : Option ℕ
  pub body : Body
  pub bytes : Bytes
  pub is_answer : response ≡ answered status announced body
  pub succeeds : is_success status ≡ true
  pub announced_fits : map_or false (ltb limit) announced ≡ false
  pub whole : content body ≡ some bytes
  pub fits : length bytes ≤ limit
  pub is_json : from_slice bytes ≡ some value

read_value-fst :
    (from_slice : Bytes → Option Value) (read : Option Bytes × RequestEvidence)
    → (read_value from_slice read).0 ≡ (read.0 >>= from_slice)
unfolding read_value
read_value-fst from_slice (none, evidence) = refl
read_value-fst from_slice (some bytes, evidence) = ground arith

within-some :
    (limit : ℕ) (whole : Option Bytes) (bytes : Bytes)
    → within limit [] whole ≡ some bytes
    → (whole ≡ some bytes) × (length bytes ≤ limit)
within-some limit none bytes h = absurd (cc)
within-some limit (some more) bytes h = elim (Bool-cases (leb (length more) limit)) [
  | inl fits ↦
      let same : more ≡ bytes = some-injective (rw fits at h) in
      (ap (λ b. some b) same, subst (λ b. length b ≤ limit) same (leb→le (length more) limit fits))
  | inr over ↦ absurd (cc (rw over at h))
]

some-within :
    (limit : ℕ) (whole : Option Bytes) (bytes : Bytes)
    → whole ≡ some bytes
    → length bytes ≤ limit
    → within limit [] whole ≡ some bytes
some-within limit whole bytes h le = rw h (ground (arith, le))

module _ (from_slice : Bytes → Option Value) (limit : ℕ) (small : limit < 2 ^ 64 - 1) where
  read_answer-eq :
      (evidence : RequestEvidence) (body : Body)
      → evidence.response_bytes ≡ 0
      → (read_value from_slice (read_body limit body evidence [])).0
        ≡ (within limit [] (content body) >>= from_slice)
  read_answer-eq evidence body fresh =
      read_value-fst from_slice (read_body limit body evidence [])
      ∙ ap (λ o. o >>= from_slice) (read_body-eq limit body evidence [] small fresh (omega arith))

  Carries-read_response :
      (response : Response) (evidence : RequestEvidence) (value : Value)
      → evidence.response_bytes ≡ 0
      → (read_response from_slice limit response evidence).0 ≡ some value
      → Carries from_slice limit response value
  unfolding read_response
  Carries-read_response (failed is_timeout) evidence value fresh h = absurd (cc)
  Carries-read_response (answered status announced body) evidence value fresh h =
      elim (Bool-cases (is_success status)) [
        | inr refused ↦ absurd (cc (rw refused at h))
        | inl succeeds ↦ elim (Bool-cases (map_or false (ltb limit) announced)) [
          | inl over ↦ absurd (cc (rw (succeeds, over) at h))
          | inr under ↦
              let received : RequestEvidence = record evidence { status = some status } in
              let read = sym (read_answer-eq received body fresh) ∙ (rw (succeeds, under) at h) in
              on_some (within limit [] (content body)) from_slice read λ bytes found parsed.
                let (whole, fits) = within-some limit (content body) bytes found in
                record {
                  status = status;
                  announced = announced;
                  body = body;
                  bytes = bytes;
                  is_answer = refl;
                  succeeds = succeeds;
                  announced_fits = under;
                  whole = whole;
                  fits = fits;
                  is_json = parsed;
                }
        ]
      ]

  read_response-Carries :
      (response : Response) (evidence : RequestEvidence) (value : Value)
      → evidence.response_bytes ≡ 0
      → Carries from_slice limit response value
      → (read_response from_slice limit response evidence).0 ≡ some value
  unfolding read_response
  read_response-Carries response evidence value fresh c =
      let received : RequestEvidence = record evidence { status = some c.status } in
      rw (c.is_answer, c.succeeds, c.announced_fits)
        (read_answer-eq received c.body fresh
          ∙ ap (λ o. o >>= from_slice) (some-within limit (content c.body) c.bytes c.whole c.fits)
          ∙ c.is_json)

-- A request gives a value exactly when the response carries it: a success that announces no more bytes
-- than the limit, whose body arrives as a whole within the limit and is that value as JSON. The limit is
-- taken to be below the largest machine number.
pub request-eq-some :
    (web : Web) (config : PreflightConfig) (endpoint : Url) (route : Bytes)
    (query : List (Bytes × Bytes)) (value : Value)
    → config.max_response_bytes < 2 ^ 64 - 1
    → ((request web config endpoint route query).0 ≡ some value)
      ↔ Carries web.from_slice config.max_response_bytes (web.send endpoint route query) value
unfolding request
request-eq-some web config endpoint route query value small =
    let start : RequestEvidence = record {
      route = route;
      status = none;
      response_bytes = 0;
      failure = none;
    } in
    (
      Carries-read_response web.from_slice config.max_response_bytes small
          (web.send endpoint route query) start value refl,
      read_response-Carries web.from_slice config.max_response_bytes small
          (web.send endpoint route query) start value refl,
    )
