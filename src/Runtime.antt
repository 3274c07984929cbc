-- ===== src/Runtime.antt =====
-- What the program takes from Go's standard library as it is: functions that rest on tables of
-- Unicode, on floating point or on a grammar of their own. They are arguments of the model.
use gcp_emulator_provisioner.Prelude.{Bool, Option, Text}
use gcp_emulator_provisioner.Config.GoTime.{Fraction}

-- The parts of a parsed `url.URL` that validation reads.
pub record Url : Type 0 where
  pub scheme : Text
  pub host : Text

pub record Runtime : Type 0 where
  -- the rounding of a fraction in `time.ParseDuration`
  pub fraction : Fraction
  -- the text of the error of `time.ParseDuration` at a value that it refuses
  pub duration_error : Text → Text
  -- `url.Parse`, with `none` for an error
  pub parse_url : Text → Option Url
  -- `strings.ToUpper`
  pub to_upper : Text → Text
  -- `strings.EqualFold`
  pub equal_fold : Text → Text → Bool
  -- `strconv.Quote`, which the verb `%q` calls
  pub quote : Text → Text
