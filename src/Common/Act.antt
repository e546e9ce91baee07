-- ===== src/Common/Act.antt =====
-- Code that changes a state and may raise: the state is also kept when it raises.
use git_hub_engineering_work.Common.Outcome.{Exc, Outcome, returned, raised}

abbrev pub Act {ℓ κ} : Type ℓ → Type κ → Type (ℓ ⊔ κ)
Act S A = S → S × Outcome A

unfoldable pub and_then {ℓ κ ι} :
    {S : Type ℓ} {A : Type κ} {B : Type ι} → S × Outcome A → (A → Act S B) → S × Outcome B
and_then (s, returned a) f = f a s
and_then (s, raised e) f = (s, raised e)

infixl 5 ◌>>=◌
abbrev pub ◌>>=◌ {ℓ κ ι} :
    {S : Type ℓ} {A : Type κ} {B : Type ι} → Act S A → (A → Act S B) → Act S B
(m >>= f) s = and_then (m s) f

abbrev pub return {ℓ κ} : {S : Type ℓ} {A : Type κ} → A → Act S A
return a s = (s, returned a)

abbrev pub raise {ℓ κ} : {S : Type ℓ} {A : Type κ} → Exc → Act S A
raise e s = (s, raised e)
