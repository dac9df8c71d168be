-- ===== src/Options.antt =====
-- Functional options: `for _, option := range options` in every constructor of the package.
use treetop_client_go.Base.{List, Option, String, [], none, some, ◌∷◌}
use treetop_client_go.Errors.{Result, configuration, err, ok, text, ◌>>=◌}

-- An option changes the value under construction or fails; `none` is a nil function.
abbrev pub Setter {ℓ} : Type ℓ → Type ℓ
Setter A = Option (A → Result A)

-- The loop; a nil option is a configuration error with the constructor's own message.
unfoldable pub apply_all {ℓ} : {A : Type ℓ} → String → List (Setter A) → A → Result A
apply_all nil_message [] a = ok a
apply_all nil_message (none ∷ options) a = err (configuration (text nil_message))
apply_all nil_message (some option ∷ options) a = option a >>= apply_all nil_message options
