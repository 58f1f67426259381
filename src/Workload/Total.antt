-- ===== src/Workload/Total.antt =====
-- Sums over lists, and loops that build one object for each element and may fail.
use tracing_framework.Prelude.{
  ◌>>=◌, ℕ, ◌+◌, Option, some, List, [], ◌∷◌, ◌++◌, ◌≡◌, ◌∙◌, refl, ap, arith,
}

abbrev pub All {ℓ κ} : {A : Type ℓ} → (A → Type κ) → List A → Type κ
All P [] = Unit
All P (x ∷ xs) = P x × All P xs

abbrev pub total {ℓ} : {A : Type ℓ} → (A → ℕ) → List A → ℕ
total f [] = 0
total f (x ∷ xs) = f x + total f xs

pub total-append {ℓ} :
    {A : Type ℓ} (f : A → ℕ) (xs ys : List A) → total f (xs ++ ys) ≡ total f xs + total f ys
total-append f [] ys = omega arith
total-append f (x ∷ xs) ys = omega (arith, total-append f xs ys)

pub All-append {ℓ κ} :
    {A : Type ℓ} (P : A → Type κ) (xs ys : List A) → All P xs → All P ys → All P (xs ++ ys)
All-append P [] ys a b = b
All-append P (x ∷ xs) ys a b = (a.0, All-append P xs ys a.1 b)

-- `new C(x)` for every `x` of a list
abbrev pub all_some {ℓ κ} : {A : Type ℓ} {B : Type κ} → (A → Option B) → List A → Option (List B)
all_some f [] = some []
all_some f (x ∷ xs) = do y ← f x; ys ← all_some f xs; some (y ∷ ys)

pub all_some-cons {ℓ κ} :
    {A : Type ℓ} {B : Type κ} (f : A → Option B) (x : A) (xs : List A) (y : B) (ys : List B)
    → f x ≡ some y
    → all_some f xs ≡ some ys
    → all_some f (x ∷ xs) ≡ some (y ∷ ys)
all_some-cons f x xs y ys e es =
    ap (λ o. o >>= λ z. all_some f xs >>= λ zs. some (z ∷ zs)) e
    ∙ ap (λ o. o >>= λ zs. some (y ∷ zs)) es

-- Where each element gives an object of its weight, the objects have the weight of the list.
pub all_some-total {ℓ κ ν} :
    {A : Type ℓ} {B : Type κ} (P : A → Type ν) (f : A → Option B) (g : B → ℕ) (h : A → ℕ)
    → ((x : A) → P x → (y : B) × (f x ≡ some y) × (g y ≡ h x))
    → (xs : List A) → All P xs
    → (ys : List B) × (all_some f xs ≡ some ys) × (total g ys ≡ total h xs)
all_some-total P f g h each [] a = ([], refl, refl)
all_some-total P f g h each (x ∷ xs) a =
    let (y, e, w) = each x a.0 in
    let (ys, es, ws) = all_some-total P f g h each xs a.1 in
    (y ∷ ys, all_some-cons f x xs y ys e es, omega (arith, w, ws))
