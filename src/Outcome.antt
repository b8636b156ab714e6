-- ===== src/Outcome.antt =====
-- How a call of the C code can end. `fault` is undefined behaviour: a read through a NULL or a
-- dangling pointer, or a division by zero. `blocked` is a call that waits for ever, such as on a mutex
-- that its own thread holds, or for what the given results do not hold. A command passes the state `S`
-- on.

use file_storage_server.Base.{◌≡◌, refl, ◌⊎◌, inl, inr, Bool, true, false, if◌then◌else◌}

pub data Outcome {ℓ} (A : Type ℓ) : Type ℓ where
  ok : A → Outcome A
  fault : Outcome A
  blocked : Outcome A

abbrev pub and_then {ℓ κ} : {A : Type ℓ} {B : Type κ} → Outcome A → (A → Outcome B) → Outcome B
and_then (ok a) f = f a
and_then fault f = fault
and_then blocked f = blocked

abbrev pub Cmd : Type 0 → Type 0 → Type 0
Cmd S A = S → Outcome (A × S)

module _ {S : Type 0} where
  abbrev pub pure : {A : Type 0} → A → Cmd S A
  pure a s = ok (a, s)

  infixl 5 ◌>>=◌ ◌>>◌
  abbrev pub ◌>>=◌ : {A B : Type 0} → Cmd S A → (A → Cmd S B) → Cmd S B
  ◌>>=◌ m f s = and_then (m s) (λ r. f r.0 r.1)

  abbrev pub ◌>>◌ : {A B : Type 0} → Cmd S A → Cmd S B → Cmd S B
  m >> k = m >>= λ _. k

  -- A pure computation that may fault, with the state left alone.
  abbrev pub lift : {A : Type 0} → Outcome A → Cmd S A
  lift r s = and_then r (λ a. ok (a, s))

-- To split on how a call ends and keep the equation.
pub Outcome-cases {ℓ} :
    {A : Type ℓ} (r : Outcome A) → ((a : A) × (r ≡ ok a)) ⊎ ((r ≡ fault) ⊎ (r ≡ blocked))
Outcome-cases (ok a) = inl (a, refl)
Outcome-cases fault = inr (inl refl)
Outcome-cases blocked = inr (inr refl)

-- If it ends, its result is as `P` says.
abbrev pub Ends {ℓ κ} : {A : Type ℓ} → (A → Type κ) → Outcome A → Type κ
Ends P (ok a) = P a
Ends P fault = Unit
Ends P blocked = Unit

pub then-Ends {ℓ κ} :
    {A B : Type ℓ} (P : A → Type κ) (Q : B → Type κ) (o : Outcome A) (k : A → Outcome B)
    → Ends P o
    → ((a : A) → P a → Ends Q (k a))
    → Ends Q (and_then o k)
then-Ends P Q (ok a) k h f = f a h
then-Ends P Q fault k h f = tt
then-Ends P Q blocked k h f = tt

pub if-Ends {ℓ κ} :
    {A : Type ℓ} (P : A → Type κ) (b : Bool) (o o' : Outcome A)
    → Ends P o
    → Ends P o'
    → Ends P (if b then o else o')
if-Ends P true o o' h h' = h
if-Ends P false o o' h h' = h'

-- A branch may use the test.
pub when-Ends {ℓ κ} :
    {A : Type ℓ} (P : A → Type κ) (b : Bool) (o o' : Outcome A)
    → (b ≡ true → Ends P o)
    → (b ≡ false → Ends P o')
    → Ends P (if b then o else o')
when-Ends P true o o' h h' = h refl
when-Ends P false o o' h h' = h' refl

pub map-Ends {ℓ κ} :
    {A : Type ℓ} (P Q : A → Type κ) (o : Outcome A) → Ends P o → ((a : A) → P a → Q a) → Ends Q o
map-Ends P Q (ok a) h f = f a h
map-Ends P Q fault h f = tt
map-Ends P Q blocked h f = tt

pub both-Ends {ℓ κ} :
    {A : Type ℓ} (P Q : A → Type κ) (o : Outcome A) → Ends P o → Ends Q o → Ends (λ a. P a × Q a) o
both-Ends P Q (ok a) h k = (h, k)
both-Ends P Q fault h k = tt
both-Ends P Q blocked h k = tt
