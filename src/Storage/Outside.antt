-- ===== src/Storage/Outside.antt =====
-- What the program does not implement: the connection to Postgres, the clock, the random source,
-- and the pure functions of the crates that it calls. Every answer is a parameter; what comes from
-- the outside in turn is indexed by the number of calls made before.
use trust_server.Common.{ℕ, String, Bool, Option}
use trust_server.Exec.{Result}
use trust_server.Storage.Models.{Uuid, Time, Bytes}

-- `sqlx::Error`, as far as the code tells its cases apart
pub data SqlError : Type 0 where
  -- `Database` errors: of a unique constraint, and any other
  unique_violation foreign_key_violation out_of_range : SqlError
  -- `fetch_one` without a row
  row_not_found : SqlError
  -- no connection, a timeout, a lost answer before the statement took effect
  unavailable : SqlError

pub record Outside : Type 0 where
  -- whether the n-th call, if it is a statement, fails before it takes effect
  pub fault : ℕ → Bool
  -- the clock, and 128 or 256 fresh random bits
  pub clock : ℕ → Time
  pub random : ℕ → ℕ
  -- the database's order on texts, as `a ≤ b`
  pub collation : String → String → Bool
  -- `sqlx::Error`'s `Display`
  pub display : SqlError → String
  -- `base64`'s STANDARD engine, and URL_SAFE_NO_PAD on 32 random bytes
  pub base64_encode : Bytes → String
  pub base64_decode : String → Option Bytes
  pub base64_url : ℕ → String
  -- `sha2::Sha256` of a text's bytes
  pub sha256 : String → Bytes
  -- argon2: hashing with a salt, which may fail with a text, and the check of a parsed verifier, which answers
  -- `none` if the verifier does not parse
  pub argon2_hash : ℕ → String → Result String String
  pub argon2_verify : String → String → Option Bool
  -- `Uuid::parse_str(…).ok()`
  pub parse_uuid : String → Option Uuid
