-- ===== src/Base/Decimal.antt =====
-- A number is read back from its decimal text, so different numbers have different texts.
use Prim.Native.Char.{code}
use Prim.Native.Nat.{ℕ, zero, suc, ◌+◌, ◌-◌, ◌*◌, ◌/◌, ◌%◌, ◌<◌}
use Prim.Native.String.{String}
use mathlib.Core.Logic.{dif_pos, dif_neg, inl, inr}
use mathlib.Core.Path.{◌≡◌, refl, ap, ◌∙◌, sym}
use mathlib.Core.WellFounded.{Acc}
use native.Mathlib.Bridge.{le_prop}
use native.Mathlib.Decide.{dec_lt}
use native.Mathlib.Omega.{arith}
use fairlead.Base.Tests.{nat_beq, Bool-cases, nat_beq_iff}
use fairlead.Base.Text.{push_digit, digits_onto, to_decimal, lt_wf, tenth_lt}

-- The number that digits spell behind `n`.
abbrev pub value : ℕ → String → ℕ
value n String.[] = n
value n (String.◌∷◌ c s) = value (n * 10 + (code c - 48)) s

value-push_digit : (n d : ℕ) (s : String) → d < 10 → value n (push_digit d s) ≡ value (n * 10 + d) s
unfolding push_digit
value-push_digit n zero s h = refl
value-push_digit n (suc zero) s h = refl
value-push_digit n (suc (suc zero)) s h = refl
value-push_digit n (suc (suc (suc zero))) s h = refl
value-push_digit n (suc (suc (suc (suc zero)))) s h = refl
value-push_digit n (suc (suc (suc (suc (suc zero))))) s h = refl
value-push_digit n (suc (suc (suc (suc (suc (suc zero)))))) s h = refl
value-push_digit n (suc (suc (suc (suc (suc (suc (suc zero))))))) s h = refl
value-push_digit n (suc (suc (suc (suc (suc (suc (suc (suc zero)))))))) s h = refl
value-push_digit n (suc (suc (suc (suc (suc (suc (suc (suc (suc zero))))))))) s h = refl
value-push_digit n (suc (suc (suc (suc (suc (suc (suc (suc (suc (suc d)))))))))) s h =
    absurd (omega arith)

value-digits : (n : ℕ) (w : Acc ◌<◌ n) (s : String) → value 0 (digits_onto n w s) ≡ value n s
unfolding digits_onto
value-digits n (Acc.intro _ smaller) s = elim (dec_lt 0 n) [
  | yes p ↦ rw (dif_pos _ le_prop p) (
      value-digits (n / 10) (smaller (n / 10) (tenth_lt p)) (push_digit (n % 10) s)
      ∙ value-push_digit (n / 10) (n % 10) s (omega arith)
      ∙ ap (λ m. value m s) (omega arith))
  | no p ↦ rw (dif_neg _ p) (ap (λ m. value m s) (omega arith))
]

value-to_decimal : (n : ℕ) → value 0 (to_decimal n) ≡ n
unfolding to_decimal
value-to_decimal n = elim (Bool-cases (nat_beq n 0)) [
  | inl e ↦ rw e (sym ((nat_beq_iff n 0).0 e))
  | inr e ↦ rw e (value-digits n (lt_wf.apply n) "")
]

pub to_decimal-injective : (m n : ℕ) → to_decimal m ≡ to_decimal n → m ≡ n
to_decimal-injective m n h = sym (value-to_decimal m) ∙ ap (value 0) h ∙ value-to_decimal n
