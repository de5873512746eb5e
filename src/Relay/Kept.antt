-- ===== src/Relay/Kept.antt =====
-- Properties of the server that handlers keep: one rule for each way to build an outcome.
use beacon_desk.Prelude.{◌≡◌, refl, Bool, true, false, Option, none, some, if◌then◌else◌}
use beacon_desk.Relay.State.{Server, Error, Outcome}

-- `P` holds of the server that an outcome leaves.
pub record Kept {ℓ} (P : Server → Type ℓ) (o : Outcome) : Type ℓ where
  pub at : P o.0

module _ {ℓ} {P : Server → Type ℓ} where
  pub Kept-pair : {s : Server} (e : Option Error) → P s → Kept P (s, e)
  Kept-pair e h = record { at = h }

  pub Kept-if :
      (b : Bool) (x y : Outcome)
      → (b ≡ true → Kept P x)
      → (b ≡ false → Kept P y)
      → Kept P (if b then x else y)
  Kept-if true x y hx hy = hx refl
  Kept-if false x y hx hy = hy refl

  pub Kept-option {κ} :
      {A : Type κ} (o : Option A) (n : Outcome) (f : A → Outcome)
      → (o ≡ none → Kept P n)
      → ((a : A) → o ≡ some a → Kept P (f a))
      → Kept P (elim o [ none ↦ n | some a ↦ f a ])
  Kept-option none n f hn hf = hn refl
  Kept-option (some a) n f hn hf = hf a refl
