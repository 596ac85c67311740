-- ===== src/Account/Failures.antt =====
-- `Failure` of crates/psky/src/account.rs, with the texts of the errors it stands for.
use psky.Prelude.{ℕ, Bool, true, false, Bytes, if◌then◌else◌}
use psky.Prelude.Text.{codes}
use psky.Credentials.Types as CredentialTypes
use psky.Farcaster.Types as AuthTypes
use psky.Account.Types.{Failure}

abbrev failure : ℕ → Bytes → Bytes → Failure
failure status code message = record { status = status; code = code; message = message }

unfoldable pub busy : Failure
busy =
    failure 429 (codes "RateLimitExceeded")
      (codes "Account service is busy; retry in a few seconds")

unfoldable pub internal : Failure
internal =
    failure 500 (codes "AccountStoreError") (codes "Account state could not be safely accessed")

unfoldable pub disabled : Failure
disabled =
    failure 503 (codes "AccountLoginDisabled")
      (codes "Configure and enable Farcaster login in the local management console")

unfoldable pub unverified : Failure
unverified =
    failure 401 (codes "InvalidToken")
      (codes "Farcaster sign-in is missing or expired; sign in again")

unfoldable pub sign_in_again : Failure
sign_in_again = failure 401 (codes "InvalidToken") (codes "Sign in with Farcaster again")

unfoldable pub not_allowed : Failure
not_allowed =
    failure 403 (codes "AccountNotAllowed") (codes "This FID is not permitted on this node")

-- `Display` of the errors.
unfoldable pub auth_text : AuthTypes.AuthError → Bytes
auth_text AuthTypes.AuthError.invalid_config =
    codes "invalid Farcaster authentication configuration"
auth_text AuthTypes.AuthError.invalid_challenge =
    codes "Farcaster sign-in challenge expired or invalid"
auth_text AuthTypes.AuthError.invalid_relay_response =
    codes "Farcaster relay returned an invalid response"
auth_text AuthTypes.AuthError.channel_expired =
    codes "Farcaster sign-in channel expired or was already consumed"
auth_text AuthTypes.AuthError.unavailable =
    codes "Farcaster authentication service is unavailable; retry shortly"
auth_text AuthTypes.AuthError.invalid_message =
    codes "Farcaster sign-in message does not match this challenge"
auth_text AuthTypes.AuthError.invalid_signature = codes "Farcaster sign-in signature is invalid"
auth_text AuthTypes.AuthError.unsupported_wallet =
    codes "this Farcaster wallet signature type is not supported"
auth_text AuthTypes.AuthError.invalid_chain_evidence =
    codes "Optimism identity verification returned invalid chain evidence"
auth_text AuthTypes.AuthError.unauthorized =
    codes "signing address is not authorized for this Farcaster identity"

unfoldable pub is_unavailable : AuthTypes.AuthError → Bool
is_unavailable AuthTypes.AuthError.unavailable = true
is_unavailable AuthTypes.AuthError.invalid_chain_evidence = true
is_unavailable AuthTypes.AuthError.invalid_relay_response = true
is_unavailable _ = false

-- `Failure::auth`
unfoldable pub from_auth : AuthTypes.AuthError → Failure
unfolding auth_text is_unavailable
from_auth error =
    failure (if is_unavailable error then 503 else 401) (codes "FarcasterAuthFailed")
      (auth_text error)

-- `From<CredentialError>`
unfoldable pub from_credential : CredentialTypes.Error → Failure
unfolding internal
from_credential CredentialTypes.Error.invalid_credentials =
    failure 401 (codes "AuthenticationRequired") (codes "Invalid identifier or password")
from_credential CredentialTypes.Error.invalid_token =
    failure 401 (codes "InvalidToken") (codes "Token is invalid")
from_credential CredentialTypes.Error.expired_token =
    failure 401 (codes "ExpiredToken") (codes "Token has expired")
from_credential CredentialTypes.Error.disabled =
    failure 403 (codes "AccountTakedown") (codes "account authority must be verified again")
from_credential CredentialTypes.Error.not_bound =
    failure 401 (codes "AccountNotFound") (codes "no verified account is configured")
from_credential CredentialTypes.Error.persistence = internal
from_credential CredentialTypes.Error.limit =
    failure 429 (codes "LimitExceeded") (codes "credential limit reached")
from_credential CredentialTypes.Error.binding_conflict =
    failure 409 (codes "BindingConflict")
      (codes "account binding conflicts with the existing identity")
from_credential CredentialTypes.Error.invalid_input =
    failure 400 (codes "InvalidRequest") (codes "invalid credential configuration")
