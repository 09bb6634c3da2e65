-- ===== src/Limits/Types.antt =====
-- crates/schemaform/src/limits.rs: the limits of an input, and the error that names the one exceeded.
use schemaform.Prelude.{ℕ, ltb, if◌then◌else◌}
use schemaform.Prelude.Results.{Result, ok, err}
use schemaform.Json.{Text}

-- the names that `InputLimitError::dimension` takes
pub data InputDimension : Type 0 where
  bytes tokens depth nodes members collection_length scalar_bytes : InputDimension

pub record InputLimits : Type 0 where
  pub bytes : ℕ
  pub tokens : ℕ
  pub depth : ℕ
  pub nodes : ℕ
  pub members : ℕ
  pub collection_length : ℕ
  pub scalar_bytes : ℕ

pub record InputLimitError : Type 0 where
  pub dimension : InputDimension
  pub maximum : ℕ
  pub observed : ℕ
  pub pointer : Text

-- `if observed > maximum { return Err(..) }`
abbrev pub within : InputDimension → ℕ → ℕ → Text → Result InputLimitError (Unit {0})
within dimension maximum observed pointer =
    if ltb maximum observed
    then err (record {
      dimension = dimension;
      maximum = maximum;
      observed = observed;
      pointer = pointer;
    })
    else ok tt
