-- ===== src/Provisioner/Effects.antt =====
-- What a handler of internal/provisioner does: it reads and changes a world outside the program,
-- appends to the log, and returns a value or an error. What was done before an error stays done.
use gcp_emulator_provisioner.Prelude.{◌≡◌, List, [], ◌∷◌, ◌++◌, Text, Result, ok, err}
use gcp_emulator_provisioner.Client.Resources.{FieldPath}
use gcp_emulator_provisioner.Client.Errors.{Error}

pub data Kind : Type 0 where
  topic subscription bucket credential : Kind

-- Lines of the log at the levels info and warn, with the resource that they name. Lines at the
-- level debug are left out.
pub data Event : Type 0 where
  would_create creating skipping : Kind → Text → Event
  would_update updating : Kind → Text → List FieldPath → Event
  unsupported : Kind → Text → FieldPath → Event
  immutable : Kind → Text → Text → Event
  would_set_versioning setting_versioning would_write would_replace wrote : Text → Event
  -- the client of a service that did not close cleanly
  unclosed : Text → Event

pub record Run (W : Type 0) : Type 0 where
  pub world : W
  pub log : List Event

abbrev pub Act : Type 0 → Type 0 → Type 0
Act W A = Run W → Result Error A × Run W

module _ {W A : Type 0} where
  abbrev pub pure : A → Act W A
  pure a s = (ok a, s)

  abbrev pub raise : Error → Act W A
  raise e s = (err e, s)

  abbrev pub lift : Result Error A → Act W A
  lift r s = (r, s)

  -- A call of the world outside
  abbrev pub call : (W → Result Error A × W) → Act W A
  call f s = let (r, w) = f s.world in (r, record s { world = w })

  -- A call whose error the caller inspects
  abbrev pub attempt : Act W A → Act W (Result Error A)
  attempt m s = let (r, s') = m s in (ok r, s')

module _ {W : Type 0} where
  abbrev pub write_log : Event → Act W (Unit {0})
  write_log e s = (ok tt, record s { log = s.log ++ (e ∷ []) })

module _ {W A B : Type 0} where
  abbrev pub continue : Result Error A → (A → Act W B) → Act W B
  continue (ok a) f s = f a s
  continue (err e) f s = (err e, s)

  infixl 5 ◌>>=◌ ◌>>◌
  abbrev pub ◌>>=◌ : Act W A → (A → Act W B) → Act W B
  ◌>>=◌ m f s = let (r, s') = m s in continue r f s'

  abbrev pub ◌>>◌ : Act W A → Act W B → Act W B
  m >> n = m >>= λ _. n

-- `fmt.Errorf("…: %w", err)` around the error of a call
abbrev pub map_err : {A : Type 0} → (Error → Error) → Result Error A → Result Error A
map_err f (ok a) = ok a
map_err f (err e) = err (f e)

abbrev pub annotate : {W A : Type 0} → (Error → Error) → Act W A → Act W A
annotate f m s = let (r, s') = m s in (map_err f r, s')

-- The action returns no error and leaves a given world.
abbrev pub EndsIn : {W : Type 0} → Act W (Unit {0}) → Run W → W → Type 0
EndsIn m s w = ((m s).0 ≡ ok tt) × ((m s).1.world ≡ w)
