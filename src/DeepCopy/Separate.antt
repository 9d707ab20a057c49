-- ===== src/DeepCopy/Separate.antt =====
-- A deep copy reads as its original and shares no cell with it.
use super_scheduling.Prelude.{
  ℕ, ◌<◌, ◌≤◌, ◌≡◌, refl, sym, ◌∙◌, Option, none, some, List, [], ◌∷◌, ◌++◌, String, length,
  get_elem?, length-append, get_elem?-append_lt, get_elem?-append_length, get_elem?_of_lt, Returns,
  arith,
}
use super_scheduling.Topology.Counters.{Address}
use super_scheduling.DeepCopy.{
  copy_cell, copy_pointer, UpdatePolicyCells, deep_copy_update_policy, ConfigurationCells,
  deep_copy_configuration_into, deep_copy_configuration,
}

-- What a pointer reads.
abbrev pub read_cell : {A : Type 0} → Option Address → List A → Option A
read_cell none cells = none
read_cell (some a) cells = get_elem? cells a

-- The pointer is nil or points to a cell.
abbrev pub IsHeld : {A : Type 0} → Option Address → List A → Type 0
IsHeld none cells = Unit
IsHeld (some a) cells = a < length cells

-- The pointer is nil or points past the first cells.
abbrev pub IsPast : Option Address → ℕ → Type 0
IsPast none n = Unit
IsPast (some a) n = n ≤ a

-- The cells are kept, and there may be more.
pub record IsGrown {A : Type 0} (cells cells' : List A) : Type 0 where
  pub longer : length cells ≤ length cells'
  pub kept : (a : Address) → a < length cells → get_elem? cells' a ≡ get_elem? cells a

pub IsGrown-trans : {A : Type 0} (x y z : List A) → IsGrown x y → IsGrown y z → IsGrown x z
IsGrown-trans x y z p q = record {
  longer = omega (arith, p.longer, q.longer);
  kept = λ a h. q.kept a (omega (arith, h, p.longer)) ∙ p.kept a h;
}

pub read_grown :
    {A : Type 0} (p : Option Address) (x y : List A)
    → IsHeld p x
    → IsGrown x y
    → read_cell p y ≡ read_cell p x
read_grown none x y held grown = refl
read_grown (some a) x y held grown = grown.kept a held

pub IsHeld-grown :
    {A : Type 0} (p : Option Address) (x y : List A) → IsHeld p x → IsGrown x y → IsHeld p y
IsHeld-grown none x y held grown = tt
IsHeld-grown (some a) x y held grown = omega (arith, held, grown.longer)

pub IsPast-less_of_le : (p : Option Address) (n k : ℕ) → k ≤ n → IsPast p n → IsPast p k
IsPast-less_of_le none n k less past = tt
IsPast-less_of_le (some a) n k less past = omega (arith, less, past)

-- The pointer `q` reads as `p` did and points to new cells.
abbrev pub IsCopyOf : {A : Type 0} → Option Address → Option Address → List A → List A → Type 0
IsCopyOf p q cells cells' =
    (read_cell q cells' ≡ read_cell p cells) × IsPast q (length cells) × IsHeld q cells'

pub copy_cell-IsCopyOf :
    {A : Type 0} (p : Option Address) (cells : List A)
    → IsHeld p cells
    → Returns (copy_cell p cells) λ r. IsGrown cells r.1 × IsCopyOf p r.0 cells r.1
unfolding copy_cell
copy_cell-IsCopyOf none cells held =
    ((none, cells), refl, (record { longer = omega arith; kept = λ a h. refl }, (refl, tt, tt)))
copy_cell-IsCopyOf (some a) cells held =
    let (value, found) = get_elem?_of_lt cells a held in
    (
      (some (length cells), cells ++ value ∷ []),
      rw (found, copy_cell) refl,
      (
        record {
          longer = omega (arith, length-append cells (value ∷ []));
          kept = λ b h. get_elem?-append_lt cells (value ∷ []) b h;
        },
        (
          get_elem?-append_length cells value ∙ sym found,
          omega arith,
          omega (arith, length-append cells (value ∷ [])),
        ),
      ),
    )

-- A copy that was made after some other copies and before some others.
pub IsCopyOf-widen :
    {A : Type 0} (p q : Option Address) (w x y z : List A)
    → IsHeld p w
    → IsGrown w x
    → IsCopyOf p q x y
    → IsGrown y z
    → IsCopyOf p q w z
IsCopyOf-widen p q w x y z held before (reads, past, there) after = (
  read_grown q y z there after ∙ reads ∙ read_grown p w x held before,
  IsPast-less_of_le q (length x) (length w) before.longer past,
  IsHeld-grown q y z there after,
)

pub same_cells : {A : Type 0} (cells : List A) → IsGrown cells cells
same_cells cells = record { longer = omega arith; kept = λ a h. refl }

-- The copy of an update policy whose sequence is nil or a cell returns with the same skew; the
-- original's cells are as before, and the copy's sequence reads as the original's from a new cell,
-- or is nil with it.
pub deep_copy_update_policy-IsCopyOf :
    (policy : UpdatePolicyCells) (cells : List (List String))
    → IsHeld policy.update_sequence cells
    → Returns (deep_copy_update_policy (some policy) cells) λ r.
      (copy : UpdatePolicyCells) × (r.0 ≡ some copy)
      × (copy.max_skew ≡ policy.max_skew)
      × IsGrown cells r.1
      × IsCopyOf policy.update_sequence copy.update_sequence cells r.1
unfolding deep_copy_update_policy copy_pointer
deep_copy_update_policy-IsCopyOf policy cells held =
    let ((q, x), run, (grown, copied)) = copy_cell-IsCopyOf policy.update_sequence cells held in
    let copy : UpdatePolicyCells = record policy { update_sequence = q } in
    ((some copy, x), rw run refl, (copy, refl, refl, grown, copied))

-- The pointers of a configuration are nil or point to cells.
abbrev pub IsHeldConfiguration : {C : Type 0} → ConfigurationCells → List C → Type 0
IsHeldConfiguration c cells =
    IsHeld c.name cells × IsHeld c.kube_master cells × IsHeld c.kube_config cells

abbrev pub IsConfigurationCopy :
    {C : Type 0} → ConfigurationCells → ConfigurationCells → List C → List C → Type 0
IsConfigurationCopy c copy cells cells' =
    IsCopyOf c.name copy.name cells cells'
    × IsCopyOf c.kube_master copy.kube_master cells cells'
    × IsCopyOf c.kube_config copy.kube_config cells cells'

pub deep_copy_configuration_into-IsConfigurationCopy :
    {C : Type 0} (c : ConfigurationCells) (cells : List C)
    → IsHeldConfiguration c cells
    → Returns
        (deep_copy_configuration_into c cells)
        λ r. IsGrown cells r.1 × IsConfigurationCopy c r.0 cells r.1
unfolding deep_copy_configuration_into
deep_copy_configuration_into-IsConfigurationCopy c cells (held₁, held₂, held₃) =
    let ((q₁, x₁), run₁, (grown₁, copied₁)) = copy_cell-IsCopyOf c.name cells held₁ in
    let ((q₂, x₂), run₂, (grown₂, copied₂)) =
      copy_cell-IsCopyOf c.kube_master x₁ (IsHeld-grown c.kube_master cells x₁ held₂ grown₁) in
    let two = IsGrown-trans cells x₁ x₂ grown₁ grown₂ in
    let ((q₃, x₃), run₃, (grown₃, copied₃)) =
      copy_cell-IsCopyOf c.kube_config x₂ (IsHeld-grown c.kube_config cells x₂ held₃ two) in
    (
      (record { name = q₁; kube_master = q₂; kube_config = q₃ }, x₃),
      rw run₁ (rw run₂ (rw run₃ refl)),
      (
        IsGrown-trans cells x₂ x₃ two grown₃,
        (
          IsCopyOf-widen c.name q₁ cells cells x₁ x₃ held₁ (same_cells cells) copied₁
              (IsGrown-trans x₁ x₂ x₃ grown₂ grown₃),
          IsCopyOf-widen c.kube_master q₂ cells x₁ x₂ x₃ held₂ grown₁ copied₂ grown₃,
          IsCopyOf-widen c.kube_config q₃ cells x₂ x₃ x₃ held₃ two copied₃ (same_cells x₃),
        ),
      ),
    )

-- The copy of a v1beta1 configuration whose pointers are nil or point to cells returns; the
-- original's cells are as before, and each of the copy's three pointers reads as the original's from a new cell, or is nil with it.
pub deep_copy_configuration-IsCopyOf :
    (c : ConfigurationCells) (cells : List String)
    → IsHeld c.name cells
    → IsHeld c.kube_master cells
    → IsHeld c.kube_config cells
    → Returns (deep_copy_configuration (some c) cells) λ r.
      (copy : ConfigurationCells) × (r.0 ≡ some copy)
      × IsGrown cells r.1
      × IsCopyOf c.name copy.name cells r.1
      × IsCopyOf c.kube_master copy.kube_master cells r.1
      × IsCopyOf c.kube_config copy.kube_config cells r.1
unfolding deep_copy_configuration copy_pointer
deep_copy_configuration-IsCopyOf c cells held₁ held₂ held₃ =
    let ((copy, x), run, (grown, copied)) =
      deep_copy_configuration_into-IsConfigurationCopy c cells (held₁, held₂, held₃) in
    ((some copy, x), rw run refl, (copy, refl, grown, copied.0, copied.1, copied.2))
