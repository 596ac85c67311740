-- ===== src/Account/State/Keeping.antt =====
-- Handlers that keep the limits on what the account service of crates/psky/src/account.rs remembers.
use psky.Prelude.{◌≤◌, Result, ok, err, length}
use psky.Credentials.Types as CredentialTypes
use psky.Account.Types.{Core, Failure}
use psky.Account.State.{Act, continue, ◌>>=◌, done, reads, answered, asks, wrote, writes}

-- At most five starts and twenty logins are remembered.
pub record WithinLimits (core : Core) : Type 0 where
  pub starts : length core.start_times ≤ 5
  pub logins : length core.password_times ≤ 20

-- A handler keeps the limits, whether it succeeds or fails.
abbrev pub Keeps : {A : Type 0} → Act A → Type 0
Keeps act = (core : Core) → WithinLimits core → WithinLimits (act core).0

pub Keeps-bind :
    {A B : Type 0} (first : Act A) (rest : A → Act B)
    → Keeps first
    → ((a : A) → Keeps (rest a))
    → Keeps (first >>= rest)
Keeps-bind {A = A} first rest kept after core within = go (first core) (kept core within)
  where
    go :
        (reached : Core × Result Failure A)
        → WithinLimits reached.0
        → WithinLimits (continue rest reached).0
    go (mid, ok a) within = after a mid within
    go (mid, err f) within = within

pub Keeps-done : {A : Type 0} (a : A) → Keeps (done a)
Keeps-done a core within = within

pub Keeps-reads : {A : Type 0} (check : Core → Result Failure A) → Keeps (reads check)
Keeps-reads check core within = within

pub Keeps-asks :
    {A : Type 0} (query : CredentialTypes.Store → Result CredentialTypes.Error A)
    → Keeps (asks query)
Keeps-asks {A = A} query core within = go (query core.store)
  where
    go : (answer : Result CredentialTypes.Error A) → WithinLimits (answered core answer).0
    go (ok a) = within
    go (err e) = within

pub Keeps-writes :
    {A : Type 0}
    (operation : CredentialTypes.Store → Result CredentialTypes.Error (CredentialTypes.Store × A))
    → Keeps (writes operation)
Keeps-writes {A = A} operation core within = go (operation core.store)
  where
    go :
        (result : Result CredentialTypes.Error (CredentialTypes.Store × A))
        → WithinLimits (wrote core result).0
    go (ok (store, a)) = record { starts = within.starts; logins = within.logins }
    go (err e) = within

pub ruleset keeping = (Keeps-bind, Keeps-done, Keeps-reads, Keeps-asks, Keeps-writes)
