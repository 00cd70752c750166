-- ===== src/Base/Tables.antt =====
-- The loop `for (entry : table) if (test) value = field;`: the last entry that passes wins.
use mathlib.Core.Bool.{Bool}
use mathlib.Core.List.{List, [], ◌∷◌}
use klip.Base.Tests.{if◌then◌else◌}

abbrev pub last_match {ℓ κ} : {E : Type ℓ} {A : Type κ} → (E → Bool) → (E → A) → A → List E → A
last_match test field value [] = value
last_match test field value (e ∷ table) =
    last_match test field (if test e then field e else value) table
