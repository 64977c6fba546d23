-- ===== src/Base/Parsing.antt =====
-- `str::parse::<u64>` reads the decimal text of a number back.
use Prim.Native.Nat.{ℕ, zero, suc, ◌+◌, ◌*◌, ◌/◌, ◌%◌, ◌<◌}
use Prim.Native.String.{String}
use mathlib.Core.Bool.{true}
use mathlib.Core.Logic.{dif_pos, dif_neg, inl, inr}
use mathlib.Core.Option.{none, some}
use mathlib.Core.Path.{◌≡◌, refl, ap, ◌∙◌, sym}
use mathlib.Core.WellFounded.{Acc}
use native.Mathlib.Bridge.{le_prop}
use native.Mathlib.Decide.{dec_lt}
use native.Mathlib.Omega.{arith}
use fairlead.Base.Tests.{ltb, nat_beq, Bool-cases, nat_beq_iff, if◌then◌else◌}
use fairlead.Base.Text.{
  push_digit, digits_onto, to_decimal, lt_wf, tenth_lt, parse_digits, parse_u64,
}

parse_digits-push_digit :
    (n d : ℕ) (s : String)
    → d < 10
    → parse_digits n (push_digit d s)
      ≡ (if ltb (n * 10 + d) 18446744073709551616 then parse_digits (n * 10 + d) s else none)
unfolding push_digit parse_digits
parse_digits-push_digit n zero s h = refl
parse_digits-push_digit n (suc zero) s h = refl
parse_digits-push_digit n (suc (suc zero)) s h = refl
parse_digits-push_digit n (suc (suc (suc zero))) s h = refl
parse_digits-push_digit n (suc (suc (suc (suc zero)))) s h = refl
parse_digits-push_digit n (suc (suc (suc (suc (suc zero))))) s h = refl
parse_digits-push_digit n (suc (suc (suc (suc (suc (suc zero)))))) s h = refl
parse_digits-push_digit n (suc (suc (suc (suc (suc (suc (suc zero))))))) s h = refl
parse_digits-push_digit n (suc (suc (suc (suc (suc (suc (suc (suc zero)))))))) s h = refl
parse_digits-push_digit n (suc (suc (suc (suc (suc (suc (suc (suc (suc zero))))))))) s h = refl
parse_digits-push_digit n (suc (suc (suc (suc (suc (suc (suc (suc (suc (suc d)))))))))) s h =
    absurd (omega arith)

parse_digits-digits_onto :
    (n : ℕ) (w : Acc ◌<◌ n) (s : String)
    → n < 18446744073709551616
    → parse_digits 0 (digits_onto n w s) ≡ parse_digits n s
unfolding digits_onto
parse_digits-digits_onto n (Acc.intro _ smaller) s fits = elim (dec_lt 0 n) [
  | yes p ↦
      let whole : n / 10 * 10 + n % 10 ≡ n = omega arith in
      let small : ltb n 18446744073709551616 ≡ true = ground arith in
      rw (dif_pos _ le_prop p) (
        parse_digits-digits_onto (n / 10) (smaller (n / 10) (tenth_lt p)) (push_digit (n % 10) s)
          (omega arith)
        ∙ parse_digits-push_digit (n / 10) (n % 10) s (omega arith)
        ∙ ap (λ m. if ltb m 18446744073709551616 then parse_digits m s else none) whole
        ∙ ap (λ b. if b then parse_digits n s else none) small)
  | no p ↦ let same : 0 ≡ n = omega arith in rw (dif_neg _ p) (ap (λ m. parse_digits m s) same)
]

parse_digits-to_decimal :
    (n : ℕ) → n < 18446744073709551616 → parse_digits 0 (to_decimal n) ≡ some n
unfolding to_decimal parse_digits
parse_digits-to_decimal n fits = elim (Bool-cases (nat_beq n 0)) [
  | inl e ↦ rw e (ap some (sym ((nat_beq_iff n 0).0 e)))
  | inr e ↦ rw e (parse_digits-digits_onto n (lt_wf.apply n) "" fits)
]

-- A text that is digits, and not empty, is parsed as them.
parse_u64-digits : (n : ℕ) (s : String) → 0 < n → parse_digits 0 s ≡ some n → parse_u64 s ≡ some n
unfolding parse_u64 parse_digits
parse_u64-digits n String.[] h e = ground (arith, e)
parse_u64-digits n (String.◌∷◌ c s) h e = ground (arith, e)

pub parse_u64-to_decimal :
    (n : ℕ) → 0 < n → n < 18446744073709551616 → parse_u64 (to_decimal n) ≡ some n
parse_u64-to_decimal n h fits = parse_u64-digits n (to_decimal n) h (parse_digits-to_decimal n fits)
