-- ===== src/Base/Filtered.antt =====
-- The sublist of the elements that have a property, which need not be decided by a test.
use mathlib.Core.Path.{◌≡◌}
use mathlib.Core.Logic.{◌⊎◌}
use mathlib.Core.List.{List, [], ◌∷◌}

-- The second list has the elements of the first that have the property, in their order.
abbrev pub Filtered : {A : Type 0} → (A → Type 0) → List A → List A → Type 0
Filtered P [] ys = ys ≡ []
Filtered {A} P (x ∷ xs) ys =
    (P x × (rest : List A) × (ys ≡ x ∷ rest) × Filtered P xs rest) ⊎ ((¬ P x) × Filtered P xs ys)
