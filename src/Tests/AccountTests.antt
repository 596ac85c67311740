-- ===== src/Tests/AccountTests.antt =====
-- Runs of the account's actions, for a worker that checked the authority a moment ago.
use psky.Prelude.Sorted.{get}
use psky.Farcaster.Types as AuthTypes
use psky.Prelude.{
  bytes_ord, ◌=?◌, ◌⊎◌, ℕ, ◌≤◌, ◌<◌, ◌≡◌, ◌↔◌, refl, true, false, Option, none, some, Bytes, Result,
  ok, List, [], ◌∷◌, ◌++◌, length, select, ltb, if◌then◌else◌,
}
use psky.Prelude.Text.{codes}
use psky.Tests.Environment as Environment
use psky.Tests.FarcasterTests as FarcasterTests
use psky.Account.Types.{Pending, Completion, Core, Draws, Env}
use psky.Url.{Url, domain}
use psky.Account.SignIn.{complete, bind_permitted}
use psky.Account.SignIn.Binding.{Bound, bind_permitted-Bound}
use psky.Account.SignIn.Permitted.{Permitted, resume-Permitted}
use psky.Account.Authority.{authority, client, hash}
use psky.Account.Authority.Outcome.{Outcome, authority-Outcome}
use psky.Prelude.{arith}
use psky.Account.State.Keeping.{WithinLimits}
use psky.Account.Actions.Rates.{execute-WithinLimits}
use psky.Account.Actions.{login, passwords, listed, forget_expired, execute}
use psky.Account.Actions.Allowed.{Allowed}
use psky.Account.Actions.Authorized.{execute-Allowed}

abbrev env : Env
env = record {
  credentials = Environment.environment;
  auth = FarcasterTests.env;
  sha256 = λ s. s;
  origin_text = λ url. url.text;
  qr_code = λ text. none;
  encode_evidence = λ e. none;
  decode_evidence = λ s. none;
}

abbrev core : Core
core = record {
  settings = record {
    enabled = true;
    service_url = codes "https://n/";
    allowed_fid = some 5;
    optimism_rpc_url = codes "https://n/";
  };
  store = record { jwt_key = []; account = none; passwords = []; sessions = []; evidence = none };
  pending = [];
  grants = (codes "old", 900) ∷ (codes "token", 1600) ∷ [];
  start_times = [];
  password_times = [];
  checked_at = some 1000;
  events = [];
  next_event = 1;
}

abbrev draws : Draws
draws = record {
  random = [];
  salt = [];
  sid = [];
  refresh_jti = [];
  access_jti = [];
  nonce = [];
  request_id = [];
  poll_token = [];
  key = [];
  account_token = [];
  verified_at = 1011;
  settled_at = 1011;
}

abbrev completion : Completion
completion = record {
  account_token = codes "token";
  fid = 5;
  handle = codes "n";
  service_url = codes "https://n";
  expires_at = 1500;
}

abbrev attempts : Core
attempts = record core {
  pending =
      (
        codes "id",
        record {
          poll_hash = hash env (codes "poll");
          challenge = record { nonce = codes "nonce"; created_at = 900; expires_at = 1200 };
          channel = [];
          proof = none;
          last_poll = 1000;
          completion = some completion;
        },
      )
      ∷ [];
}

authority-Outcome_example : Outcome env core 1010 (authority env core 1010)
authority-Outcome_example = authority-Outcome env core 1010

execute-Allowed_example :
    (core.settings.enabled ≡ true)
    × Allowed env 1010 1011 (forget_expired 1010 core) (passwords (codes "token"))
unfolding authority execute psky.Account.Authority.grant psky.Credentials.Sessions.list_passwords
    psky.Credentials.Sessions.ordered psky.Prelude.Sorted.get psky.Prelude.bytes_cmp
execute-Allowed_example =
    execute-Allowed env 1010 draws (passwords (codes "token")) core (forget_expired 1010 core)
      (listed []) refl

resume-Permitted_example :
    (attempt : Pending) × (auth_client : AuthTypes.AuthClient) × (get (codes "id") attempts.pending
      ≡ some attempt)
    × ((hash env (codes "poll") =? attempt.poll_hash) ≡ true)
    × (client env attempts ≡ ok auth_client)
    × ((attempt.completion ≡ some completion)
        ⊎ Permitted env 1010 draws auth_client attempts.settings.allowed_fid attempt)
unfolding client get hash psky.Account.SignIn.resume psky.Farcaster.Urls.new
    psky.Prelude.Text.is_ascii_alphanumeric psky.Prelude.bytes_cmp
resume-Permitted_example =
    resume-Permitted env 1010 draws (codes "id") (codes "poll") attempts attempts completion refl

-- A node whose account was bound to another authority, with a password, a grant and evidence of block 8.
abbrev origin : Url
origin = record FarcasterTests.url {
  host = some (domain (codes "pds.example"));
  host_str = some (codes "pds.example");
  text = codes "https://pds.example/";
  authority = codes "pds.example";
}

abbrev node : Env
node = record env {
  credentials = record Environment.environment { parse_url = λ text. some origin };
  auth = record FarcasterTests.env { parse_url = λ text. some origin };
  sha256 = λ s. codes "digest";
  origin_text = λ url. codes "https://pds.example";
  encode_evidence = λ e. some (codes "new");
  decode_evidence = λ s. some (record {
    identity = record FarcasterTests.identity { checked_block = 8 };
    proof = FarcasterTests.proof;
  });
}

abbrev before : Core
before = record core {
  store = record {
    jwt_key = [];
    account = some (record {
      document =
          Environment.account_bytes (Environment.account_of 5 true (codes "did:web:pds.example"));
      repo_key = 7 ∷ [];
    });
    passwords = record { name = codes "laptop"; salt = []; verifier = []; created_at = 900 } ∷ [];
    sessions = [];
    evidence = some (codes "old");
  };
}

abbrev attempt : Pending
attempt = record {
  poll_hash = codes "digest";
  challenge = record { nonce = codes "nonce"; created_at = 900; expires_at = 1200 };
  channel = [];
  proof = some FarcasterTests.proof;
  last_poll = 1010;
  completion = none;
}

abbrev after : Core
after =
    (bind_permitted node 1010 draws (codes "id") attempt FarcasterTests.proof
      FarcasterTests.identity before).0

abbrev done : Completion
done = record {
  account_token = [];
  fid = 5;
  handle = codes "pds.example";
  service_url = codes "https://pds.example";
  expires_at = 1610;
}

revoked : (after.store.passwords ≡ []) × (after.grants ≡ (codes "digest", 1610) ∷ [])
unfolding Environment.read_account bind_permitted psky.Account.Authority.fingerprint
    psky.Account.Settings.identity psky.Credentials.Identity.label_valid
    psky.Credentials.Identity.valid_authority psky.Credentials.Identity.valid_hostname
    psky.Credentials.Identity.validate psky.Credentials.Identity.validate_public
    psky.Credentials.Store.account psky.Credentials.Store.bind_again
    psky.Credentials.Store.bind_loaded psky.Credentials.Store.bind_verified
    psky.Credentials.Store.disable psky.Credentials.Store.disable_loaded
    psky.Credentials.Store.enabled_account psky.Credentials.Store.evidence
    psky.Credentials.Store.invalidate_authority psky.Credentials.Store.load_account
    psky.Credentials.Store.set_evidence psky.Credentials.Store.update_account
    psky.Prelude.Sorted.insert psky.Prelude.Text.ends_with psky.Prelude.Text.is_ascii_alphabetic
    psky.Prelude.Text.is_ascii_alphanumeric psky.Prelude.Text.is_ascii_lowercase
    psky.Prelude.Text.last_part psky.Prelude.Text.split psky.Prelude.Text.strip_prefix
    psky.Prelude.bytes_cmp
revoked = (refl, refl)

bind_permitted-Bound_example :
    Bound node 1010 draws before after FarcasterTests.proof FarcasterTests.identity (complete done)
unfolding Environment.read_account bind_permitted psky.Account.Authority.fingerprint
    psky.Account.Settings.identity psky.Credentials.Identity.label_valid
    psky.Credentials.Identity.valid_authority psky.Credentials.Identity.valid_hostname
    psky.Credentials.Identity.validate psky.Credentials.Identity.validate_public
    psky.Credentials.Store.account psky.Credentials.Store.bind_again
    psky.Credentials.Store.bind_loaded psky.Credentials.Store.bind_verified
    psky.Credentials.Store.disable psky.Credentials.Store.disable_loaded
    psky.Credentials.Store.enabled_account psky.Credentials.Store.evidence
    psky.Credentials.Store.invalidate_authority psky.Credentials.Store.load_account
    psky.Credentials.Store.set_evidence psky.Credentials.Store.update_account
    psky.Prelude.Text.ends_with psky.Prelude.Text.is_ascii_alphabetic
    psky.Prelude.Text.is_ascii_alphanumeric psky.Prelude.Text.is_ascii_lowercase
    psky.Prelude.Text.last_part psky.Prelude.Text.split psky.Prelude.Text.strip_prefix
    psky.Prelude.bytes_cmp
bind_permitted-Bound_example =
    bind_permitted-Bound node 1010 draws (codes "id") attempt FarcasterTests.proof
      FarcasterTests.identity before after (complete done) refl

execute-WithinLimits_example :
    WithinLimits (execute env 1010 draws (login (codes "n") (codes "guess")) core).0
execute-WithinLimits_example =
    execute-WithinLimits env 1010 draws (login (codes "n") (codes "guess")) core
      (record { starts = omega arith; logins = omega arith })
