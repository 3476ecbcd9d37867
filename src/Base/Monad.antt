-- ===== src/Base/Monad.antt =====
-- Code with effects: a function from the state to a result and the next state. None of the
-- modelled code unwinds, so there is no error case beside the values that the code returns.

abbrev pub State {ℓ} : Type ℓ → Type ℓ → Type ℓ
State S A = S → A × S

infixl 5 ◌>>=◌ ◌>>◌
abbrev pub ◌>>=◌ {ℓ} : {S A B : Type ℓ} → State S A → (A → State S B) → State S B
◌>>=◌ m f s = let r = m s in f r.0 r.1

abbrev pub ◌>>◌ {ℓ} : {S A B : Type ℓ} → State S A → State S B → State S B
m >> n = m >>= λ _. n

abbrev pub pure {ℓ} : {S A : Type ℓ} → A → State S A
pure a s = (a, s)
