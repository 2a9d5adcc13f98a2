-- ===== src/Common/Eqs.antt =====
-- Python's `==` on the keys of dictionaries: a test that decides equality, as an instance.
use Prim.Native.Nat.{ℕ}
use Prim.Native.String.{String}
use mathlib.Core.Path.{◌≡◌}
use mathlib.Core.Logic.{◌↔◌}
use mathlib.Core.Bool.{Bool, true}
use text.Mathlib.Text.{◌==◌ as same_text}
use text.Mathlib.TextEquality.{eq_iff}
use llm_rl_cpu_poc.Common.Tests.{nat_beq, nat_beq_iff}

-- Whether a test says `true` at equal values and at no others.
abbrev pub Decides {ℓ} : {A : Type ℓ} → (A → A → Bool) → Type ℓ
Decides {A} test = (x y : A) → (test x y ≡ true) ↔ (x ≡ y)

pub record Key {ℓ} (K : Type ℓ) : Type ℓ where
  pub same : K → K → Bool
  pub same_iff : Decides same

instance abbrev pub text_key : Key String
text_key = record { same_iff = eq_iff; same = same_text }

instance abbrev pub number_key : Key ℕ
number_key = record { same_iff = nat_beq_iff; same = nat_beq }

infix 50 ◌==◌
abbrev pub ◌==◌ {ℓ} : {K : Type ℓ} ⦃key : Key K⦄ → K → K → Bool
◌==◌ ⦃key⦄ = key.same
