-- ===== src/Config/Expand/Laws.antt =====
-- Expansion of one text in internal/config/config.go.
use mathlib.Core.List.{append_assoc}
use gcp_emulator_provisioner.Prelude.{
  ℕ, zero, suc, sym, length-append, ◌+◌, ◌≡◌, refl, ◌∙◌, ap, true, false, Option, none, some, [],
  ◌∷◌, ◌++◌, arith, Text, codes, nat_eq, length, all, not,
}
use gcp_emulator_provisioner.Config.Expand.{
  until_brace, reference, replacement, expand_from, expand_env_vars,
}

abbrev pub Without : ℕ → Text → Type 0
Without c s = all (λ d. not (nat_eq d c)) s ≡ true

until_brace-append :
    (name rest : Text) → Without b'}' name → until_brace (name ++ b'}' ∷ rest) ≡ some name
unfolding until_brace
until_brace-append [] rest h = refl
until_brace-append (c ∷ name) rest h = ground (arith, until_brace-append name rest)

reference_at :
    (c : ℕ) (name rest : Text)
    → Without b'}' (c ∷ name)
    → reference (codes "${" ++ (c ∷ name) ++ b'}' ∷ rest) ≡ some (c ∷ name)
unfolding reference
reference_at c name rest h = rw (until_brace-append (c ∷ name) rest h) refl

reference_plain : (b : ℕ) (s : Text) → nat_eq b b'$' ≡ false → reference (b ∷ s) ≡ none
unfolding reference
reference_plain b [] h = refl
reference_plain b (c ∷ s) h = ground arith

module _ (lookup_env : Text → Option Text) where
  pass_over :
      (k : ℕ) (front rest : Text)
      → k ≡ length front
      → expand_from lookup_env k (front ++ rest) ≡ expand_from lookup_env 0 rest
  unfolding expand_from
  pass_over zero [] rest e = refl
  pass_over (suc k) [] rest e = absurd (omega (arith, e))
  pass_over zero (c ∷ front) rest e = absurd (omega (arith, e))
  pass_over (suc k) (c ∷ front) rest e = pass_over k front rest (omega (arith, e))

  expand_from_at :
      (c : ℕ) (s : Text) (name : Text)
      → reference (c ∷ s) ≡ some name
      → expand_from lookup_env 0 (c ∷ s)
        ≡ replacement lookup_env name ++ expand_from lookup_env (length name + 2) s
  unfolding expand_from
  expand_from_at c s name h = rw (h, expand_from) refl

  expand_from_plain :
      (c : ℕ) (s : Text)
      → reference (c ∷ s) ≡ none
      → expand_from lookup_env 0 (c ∷ s) ≡ c ∷ expand_from lookup_env 0 s
  unfolding expand_from
  expand_from_plain c s h = rw (h, expand_from) refl

  at_reference :
      (c : ℕ) (name rest : Text)
      → Without b'}' (c ∷ name)
      → expand_from lookup_env 0 (codes "${" ++ (c ∷ name) ++ b'}' ∷ rest)
        ≡ replacement lookup_env (c ∷ name) ++ expand_from lookup_env 0 rest
  at_reference c name rest h =
      expand_from_at b'$' (b'{' ∷ (c ∷ name) ++ b'}' ∷ rest) (c ∷ name) (reference_at c name rest h)
      ∙ ap (λ (t : Text). replacement lookup_env (c ∷ name) ++ t)
          (ap (λ t. expand_from lookup_env (length (c ∷ name) + 2) t)
              (sym (append_assoc (b'{' ∷ c ∷ name) (b'}' ∷ []) rest))
            ∙ pass_over (length (c ∷ name) + 2) ((b'{' ∷ c ∷ name) ++ b'}' ∷ []) rest
                (omega (arith, length-append (b'{' ∷ c ∷ name) (b'}' ∷ []))))

  -- Bytes before the first dollar sign stay, the reference that follows is replaced, and expansion
  -- goes on behind it: what was put in is not expanded again.
  pub expand_env_vars-reference :
      (before : Text) (c : ℕ) (name rest : Text)
      → Without b'$' before
      → Without b'}' (c ∷ name)
      → expand_env_vars lookup_env (before ++ codes "${" ++ (c ∷ name) ++ b'}' ∷ rest)
        ≡ before ++ replacement lookup_env (c ∷ name) ++ expand_env_vars lookup_env rest
  unfolding expand_env_vars
  expand_env_vars-reference [] c name rest h g = at_reference c name rest g
  expand_env_vars-reference (b ∷ before) c name rest h g =
      expand_from_plain b (before ++ codes "${" ++ (c ∷ name) ++ b'}' ∷ rest)
        (reference_plain b _ (ground arith))
      ∙ ap (λ (t : Text). b ∷ t) (expand_env_vars-reference before c name rest (ground arith) g)

  -- A text with no dollar sign is left as it is.
  pub expand_env_vars_plain : (s : Text) → Without b'$' s → expand_env_vars lookup_env s ≡ s
  unfolding expand_env_vars expand_from
  expand_env_vars_plain [] h = refl
  expand_env_vars_plain (c ∷ s) h =
      expand_from_plain c s (reference_plain c s (ground arith))
      ∙ ap (λ (t : Text). c ∷ t) (expand_env_vars_plain s (ground arith))
