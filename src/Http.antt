-- ===== src/Http.antt =====
-- What a request through `reqwest` meets, as data: no answer, or a status, the length it announces and a
-- body that arrives in chunks and may break off. An error only tells whether it was a timeout.
use psky.Prelude.{ℕ, Bool, Option, Bytes}

pub data Body : Type 0 where
  end : Body
  broken : (is_timeout : Bool) → Body
  chunk : Bytes → Body → Body

pub data Response : Type 0 where
  failed : (is_timeout : Bool) → Response
  answered : (status : ℕ) (content_length : Option ℕ) → Body → Response
