-- ===== src/Credentials/Sessions/Validity.antt =====
-- The tables of passwords and sessions: their limits, their keys and the foreign key between them.
use psky.Prelude.{
  ◌≤◌, ◌≡◌, refl, true, false, not, Bool, none, Bytes, bytes_ord, ◌=?◌, =?_iff, arith, List, [],
  ◌∷◌, select, length,
}
use psky.Credentials.Types.{PasswordRow, SessionRow, Store}
use psky.Credentials.Sessions.{has_password, find_session, rotate, max_passwords, max_sessions}

abbrev pub AreNamed : List PasswordRow → Type 0
AreNamed [] = Unit {0}
AreNamed (p ∷ ps) = (has_password p.name ps ≡ false) × AreNamed ps

abbrev pub AreKeyed : List SessionRow → Type 0
AreKeyed [] = Unit {0}
AreKeyed (s ∷ ss) = (find_session s.id ss ≡ none) × AreKeyed ss

-- Every session belongs to a password that is there.
abbrev pub AreLinked : List PasswordRow → List SessionRow → Type 0
AreLinked ps [] = Unit {0}
AreLinked ps (s ∷ ss) = (has_password s.password_name ps ≡ true) × AreLinked ps ss

-- Within the limits, with distinct names and identifiers, and no session without its password.
pub record IsValid (store : Store) : Type 0 where
  pub few_passwords : length store.passwords ≤ max_passwords
  pub few_sessions : length store.sessions ≤ max_sessions
  pub named : AreNamed store.passwords
  pub keyed : AreKeyed store.sessions
  pub linked : AreLinked store.passwords store.sessions

has_password-select :
    (keep : PasswordRow → Bool) (name : Bytes) (ps : List PasswordRow)
    → has_password name ps ≡ false
    → has_password name (select keep ps) ≡ false
unfolding has_password
has_password-select keep name [] h = refl
has_password-select keep name (p ∷ ps) h = ground (arith, has_password-select keep name ps)

pub AreNamed-select :
    (keep : PasswordRow → Bool) (ps : List PasswordRow) → AreNamed ps → AreNamed (select keep ps)
AreNamed-select keep [] h = tt
AreNamed-select keep (p ∷ ps) h =
    ground (arith, has_password-select keep p.name ps, AreNamed-select keep ps)

pub find_session-select :
    (keep : SessionRow → Bool) (id : Bytes) (ss : List SessionRow)
    → find_session id ss ≡ none
    → find_session id (select keep ss) ≡ none
unfolding find_session
find_session-select keep id [] h = refl
find_session-select keep id (s ∷ ss) h = ground (arith, find_session-select keep id ss)

pub AreKeyed-select :
    (keep : SessionRow → Bool) (ss : List SessionRow) → AreKeyed ss → AreKeyed (select keep ss)
AreKeyed-select keep [] h = tt
AreKeyed-select keep (s ∷ ss) h =
    ground (arith, find_session-select keep s.id ss, AreKeyed-select keep ss)

pub AreLinked-select :
    (keep : SessionRow → Bool) (ps : List PasswordRow) (ss : List SessionRow)
    → AreLinked ps ss
    → AreLinked ps (select keep ss)
AreLinked-select keep ps [] h = tt
AreLinked-select keep ps (s ∷ ss) h = ground (arith, AreLinked-select keep ps ss)

pub AreLinked-cons :
    (p : PasswordRow) (ps : List PasswordRow) (ss : List SessionRow)
    → AreLinked ps ss
    → AreLinked (p ∷ ps) ss
unfolding has_password
AreLinked-cons p ps [] h = tt
AreLinked-cons p ps (s ∷ ss) h = ground (arith, AreLinked-cons p ps ss)

-- Another password is still there when one is deleted.
has_password-revoke :
    (name other : Bytes) (ps : List PasswordRow)
    → (other =? name) ≡ false
    → has_password other ps ≡ true
    → has_password other (select (λ p. not (p.name =? name)) ps) ≡ true
unfolding has_password
has_password-revoke name other [] e h = h
has_password-revoke name other (p ∷ ps) e h = ground (
  arith,
  has_password-revoke name other ps e,
  =?_iff p.name other,
  =?_iff p.name name,
  =?_iff other name,
)

pub AreLinked-revoke :
    (name : Bytes) (ps : List PasswordRow) (ss : List SessionRow)
    → AreLinked ps ss
    → AreLinked
        (select (λ p. not (p.name =? name)) ps)
        (select (λ s. not (s.password_name =? name)) ss)
AreLinked-revoke name ps [] h = tt
AreLinked-revoke name ps (s ∷ ss) h =
    ground (arith, AreLinked-revoke name ps ss, has_password-revoke name s.password_name ps)

module _ (jti sid old : Bytes) where
  pub length-rotate : (ss : List SessionRow) → length (rotate jti sid old ss).0 ≡ length ss
  unfolding rotate
  length-rotate [] = refl
  length-rotate (s ∷ ss) = ground (arith, length-rotate ss)

  find_session-rotate :
      (id : Bytes) (ss : List SessionRow)
      → find_session id ss ≡ none
      → find_session id (rotate jti sid old ss).0 ≡ none
  unfolding rotate find_session
  find_session-rotate id [] h = refl
  find_session-rotate id (s ∷ ss) h = ground (arith, find_session-rotate id ss)

  pub AreKeyed-rotate : (ss : List SessionRow) → AreKeyed ss → AreKeyed (rotate jti sid old ss).0
  unfolding rotate
  AreKeyed-rotate [] h = tt
  AreKeyed-rotate (s ∷ ss) h = ground (arith, find_session-rotate s.id ss, AreKeyed-rotate ss)

  pub AreLinked-rotate :
      (ps : List PasswordRow) (ss : List SessionRow)
      → AreLinked ps ss
      → AreLinked ps (rotate jti sid old ss).0
  unfolding rotate
  AreLinked-rotate ps [] h = tt
  AreLinked-rotate ps (s ∷ ss) h = ground (arith, AreLinked-rotate ps ss)
