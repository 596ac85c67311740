-- ===== src/Account/State.antt =====
-- Handlers of crates/psky/src/account.rs as state passing: what a handler changed before it failed stays.
pub mod Keeping
use psky.Prelude.{◌≡◌, refl, ap, Result, ok, err}
use psky.Credentials.Types as CredentialTypes
use psky.Account.Types.{Core, Failure}
use psky.Account.Failures.{from_credential}

abbrev pub Act : Type 0 → Type 0
Act A = Core → Core × Result Failure A

abbrev pub continue :
    {A B : Type 0} → (A → Act B) → Core × Result Failure A → Core × Result Failure B
continue rest (core, ok a) = rest a core
continue rest (core, err failure) = (core, err failure)

infixl 5 ◌>>=◌ ◌>>◌
abbrev pub ◌>>=◌ : {A B : Type 0} → Act A → (A → Act B) → Act B
(first >>= rest) core = continue rest (first core)

abbrev pub ◌>>◌ : {B : Type 0} → Act (Unit {0}) → Act B → Act B
first >> rest = first >>= λ _. rest

abbrev pub done : {A : Type 0} → A → Act A
done a core = (core, ok a)

-- A check that changes nothing.
abbrev pub reads : {A : Type 0} → (Core → Result Failure A) → Act A
reads check core = (core, check core)

-- A read of the store.
abbrev pub answered : {A : Type 0} → Core → Result CredentialTypes.Error A → Core × Result Failure A
answered core (ok a) = (core, ok a)
answered core (err e) = (core, err (from_credential e))

abbrev pub asks : {A : Type 0} → (CredentialTypes.Store → Result CredentialTypes.Error A) → Act A
asks query core = answered core (query core.store)

-- An operation of the store, which changes it when it succeeds.
abbrev pub wrote :
    {A : Type 0}
    → Core
    → Result CredentialTypes.Error (CredentialTypes.Store × A)
    → Core × Result Failure A
wrote core (ok (store, a)) = (record core { store = store }, ok a)
wrote core (err e) = (core, err (from_credential e))

abbrev pub writes :
    {A : Type 0}
    → (CredentialTypes.Store → Result CredentialTypes.Error (CredentialTypes.Store × A))
    → Act A
writes operation core = wrote core (operation core.store)

abbrev pub with_unit :
    Result CredentialTypes.Error CredentialTypes.Store
    → Result CredentialTypes.Error (CredentialTypes.Store × Unit {0})
with_unit (ok store) = ok (store, tt)
with_unit (err e) = err e

-- What a chain of handlers that gave a result has met, handed on as variables.
pub on_step :
    {A B P : Type 0} (reached : Core × Result Failure A) (rest : A → Act B) {next : Core} {b : B}
    → continue rest reached ≡ (next, ok b)
    → ((mid : Core) (a : A) → reached ≡ (mid, ok a) → rest a mid ≡ (next, ok b) → P)
    → P
on_step (mid, ok a) rest h k = k mid a refl h
on_step (mid, err f) rest h k = absurd (cc (ap (λ s. s.1) h))

-- The same for a check, a read of the store and an operation of the store, at the states that they leave.
pub on_read :
    {A B P : Type 0} (core : Core) (check : Result Failure A) (rest : A → Act B) {next : Core}
    {b : B}
    → continue rest (core, check) ≡ (next, ok b)
    → ((a : A) → check ≡ ok a → rest a core ≡ (next, ok b) → P)
    → P
on_read core (ok a) rest h k = k a refl h
on_read core (err f) rest h k = absurd (cc (ap (λ s. s.1) h))

pub on_asked :
    {A B P : Type 0} (core : Core) (answer : Result CredentialTypes.Error A) (rest : A → Act B)
    {next : Core} {b : B}
    → continue rest (answered core answer) ≡ (next, ok b)
    → ((a : A) → answer ≡ ok a → rest a core ≡ (next, ok b) → P)
    → P
on_asked core (ok a) rest h k = k a refl h
on_asked core (err e) rest h k = absurd (cc (ap (λ s. s.1) h))

pub on_wrote :
    {A B P : Type 0} (core : Core)
    (result : Result CredentialTypes.Error (CredentialTypes.Store × A)) (rest : A → Act B)
    {next : Core} {b : B}
    → continue rest (wrote core result) ≡ (next, ok b)
    → ((store : CredentialTypes.Store) (a : A)
        → result ≡ ok (store, a)
        → rest a (record core { store = store }) ≡ (next, ok b)
        → P)
    → P
on_wrote core (ok (store, a)) rest h k = k store a refl h
on_wrote core (err e) rest h k = absurd (cc (ap (λ s. s.1) h))
