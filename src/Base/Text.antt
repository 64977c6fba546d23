-- ===== src/Base/Text.antt =====
-- `str::trim` and its relatives, and the text of a number.
use Prim.Native.Char.{Char, code}
use Prim.Native.Nat.{ℕ, zero, suc, ◌+◌, ◌-◌, ◌*◌, ◌/◌, ◌%◌, ◌<◌}
use Prim.Native.String.{String}
use fairlead.Base.Tests.{◌==◌, nat_eq, leb, ltb, if◌then◌else◌}
use mathlib.Core.Bool.{Bool, true, false, ◌&&◌, ◌||◌}
use mathlib.Core.Option.{Option, none, some}
use mathlib.Core.Logic.{dite}
use mathlib.Core.Path.{◌≡◌, refl}
use mathlib.Core.WellFounded.{Acc, WellFounded}
use native.Mathlib.Decide.{dec_lt}
use native.Mathlib.Omega.{arith}

-- `char::is_whitespace`: the Unicode property White_Space.
unfoldable pub is_whitespace : Char → Bool
is_whitespace c =
    let n = code c in
    (leb 9 n && leb n 13)
    || (n == 0x20)
    || (n == 0x85)
    || (n == 0xa0)
    || (n == 0x1680)
    || (leb 0x2000 n && leb n 0x200a)
    || (n == 0x2028)
    || (n == 0x2029)
    || (n == 0x202f)
    || (n == 0x205f)
    || (n == 0x3000)

unfoldable pub trim_start : String → String
unfolding is_whitespace
trim_start String.[] = String.[]
trim_start (String.◌∷◌ c s) =
    let rest = trim_start s in if is_whitespace c then rest else String.◌∷◌ c s

abbrev pub text_is_empty : String → Bool
text_is_empty String.[] = true
text_is_empty (String.◌∷◌ c s) = false

unfoldable pub trim_end : String → String
unfolding is_whitespace
trim_end String.[] = String.[]
trim_end (String.◌∷◌ c s) =
    let rest = trim_end s in
    if text_is_empty rest && is_whitespace c then String.[] else String.◌∷◌ c rest

unfoldable pub trim : String → String
unfolding trim_start trim_end
trim s = trim_end (trim_start s)

-- `starts_with`, on scalar values.
unfoldable pub starts_with : String → String → Bool
starts_with prefix String.[] = text_is_empty prefix
starts_with String.[] (String.◌∷◌ d s) = true
starts_with (String.◌∷◌ c prefix) (String.◌∷◌ d s) =
    let rest = starts_with prefix s in (code c == code d) && rest

-- `str::cmp` on UTF-8 orders texts as their scalar values do.
unfoldable pub text_le : String → String → Bool
text_le String.[] t = true
text_le (String.◌∷◌ c s) String.[] = false
text_le (String.◌∷◌ c s) (String.◌∷◌ d t) =
    let rest = text_le s t in
    if leb (code d + 1) (code c) then false else if leb (code c + 1) (code d) then true else rest

-- One decimal digit in front of a text.
unfoldable pub push_digit : ℕ → String → String
push_digit zero s = String.◌∷◌ "0" s
push_digit (suc zero) s = String.◌∷◌ "1" s
push_digit (suc (suc zero)) s = String.◌∷◌ "2" s
push_digit (suc (suc (suc zero))) s = String.◌∷◌ "3" s
push_digit (suc (suc (suc (suc zero)))) s = String.◌∷◌ "4" s
push_digit (suc (suc (suc (suc (suc zero))))) s = String.◌∷◌ "5" s
push_digit (suc (suc (suc (suc (suc (suc zero)))))) s = String.◌∷◌ "6" s
push_digit (suc (suc (suc (suc (suc (suc (suc zero))))))) s = String.◌∷◌ "7" s
push_digit (suc (suc (suc (suc (suc (suc (suc (suc zero)))))))) s = String.◌∷◌ "8" s
push_digit _ s = String.◌∷◌ "9" s

Acc-below : (k n : ℕ) → n < k → Acc ◌<◌ n
Acc-below zero n h = elim h [ ]
Acc-below (suc k) n h = Acc.intro n (λ m hm. Acc-below k m (omega arith))

unfoldable pub lt_wf : WellFounded ◌<◌
unfolding Acc-below
lt_wf = record { apply = λ n. Acc-below (suc n) n (omega arith) }

pub tenth_lt : {n : ℕ} → 0 < n → n / 10 < n
tenth_lt h = omega arith

-- The digits of `n` in front of `s`; none for 0.
unfoldable pub digits_onto : (n : ℕ) → Acc ◌<◌ n → String → String
unfolding push_digit
digits_onto n (Acc.intro _ smaller) s =
    dite (dec_lt 0 n)
      (λ h. digits_onto (n / 10) (smaller (n / 10) (tenth_lt h)) (push_digit (n % 10) s)) (λ _. s)

-- `Display` of an unsigned integer.
unfoldable pub to_decimal : ℕ → String
unfolding digits_onto lt_wf dec_lt
to_decimal n = if n == 0 then "0" else digits_onto n (lt_wf.apply n) ""

-- The number that digits spell behind `n`; other characters and overflow are refused.
unfoldable pub parse_digits : ℕ → String → Option ℕ
parse_digits n String.[] = some n
parse_digits n (String.◌∷◌ c s) =
    let next = n * 10 + (code c - 48) in
    let rest = parse_digits next s in
    if leb 48 (code c) && leb (code c) 57
    then (if ltb next 18446744073709551616 then rest else none)
    else none

-- `str::parse::<u64>`: a leading plus sign is taken, no digits are refused.
unfoldable pub parse_u64 : String → Option ℕ
unfolding parse_digits
parse_u64 String.[] = none
parse_u64 (String.◌∷◌ c s) =
    if code c == 43
    then (if text_is_empty s then none else parse_digits 0 s)
    else parse_digits 0 (String.◌∷◌ c s)

to_decimal_test : to_decimal 1203 ≡ "1203"
unfolding to_decimal
to_decimal_test = refl
