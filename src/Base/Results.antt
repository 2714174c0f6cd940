-- ===== src/Base/Results.antt =====
-- What a call of stateful C++ code comes to: it returns a value and the new state, it throws and
-- leaves a state behind, its behaviour is undefined, or it does not come to an end, since it waits or
-- the fuel of a loop ran out.

pub data Outcome {ℓ κ} (S : Type ℓ) (A : Type κ) : Type (ℓ ⊔ κ) where
  returns : A → S → Outcome S A
  throws : S → Outcome S A
  undefined : Outcome S A
  unfinished : Outcome S A

-- Statements in sequence: only a call that returns is followed by the next.
abbrev pub Action {ℓ κ} : Type ℓ → Type κ → Type (ℓ ⊔ κ)
Action S A = S → Outcome S A

abbrev pub then_run {ℓ κ ν} :
    {S : Type ℓ} {A : Type κ} {B : Type ν} → Outcome S A → (A → S → Outcome S B) → Outcome S B
then_run (returns a s) f = f a s
then_run (throws s) f = throws s
then_run undefined f = undefined
then_run unfinished f = unfinished

infixl 5 ◌>>=◌ ◌>>◌
abbrev pub ◌>>=◌ {ℓ κ ν} :
    {S : Type ℓ} {A : Type κ} {B : Type ν} → Action S A → (A → Action S B) → Action S B
◌>>=◌ m f s = then_run (m s) f

abbrev pub ◌>>◌ {ℓ κ} : {S : Type ℓ} {B : Type κ} → Action S (Unit {0}) → Action S B → Action S B
m >> k = m >>= λ _. k

abbrev pub pure {ℓ κ} : {S : Type ℓ} {A : Type κ} → A → Action S A
pure a s = returns a s
