-- ===== src/Base/Settings.antt =====
-- Lists of settings, of which the last one that sets a field counts.
use mathlib.Core.List.{List, [], ◌∷◌}
use mathlib.Core.Option.{Option, none, some}

abbrev pub get_or_else {ℓ} : {A : Type ℓ} → Option A → A → A
get_or_else none a = a
get_or_else (some b) a = b

-- `sets` says what a setting makes of the field, if it sets it; `a` is the field before.
abbrev pub last_set {ℓ κ} : {O : Type ℓ} {A : Type κ} → (O → Option A) → List O → A → A
last_set sets [] a = a
last_set sets (o ∷ os) a = last_set sets os (get_or_else (sets o) a)
