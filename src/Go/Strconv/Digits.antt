-- ===== src/Go/Strconv/Digits.antt =====
-- What `Itoa` prints, `ParseInt` reads back.
use zfs_nas_dashboard.Prelude.{
  ℕ, zero, suc, ◌+◌, ◌-◌, ◌*◌, ◌/◌, ◌%◌, ◌^◌, ◌≤◌, ◌<◌, ◌≡◌, refl, sym, ap, ◌∙◌, inl, inr, Bool,
  true, false, ◌&&◌, none, [], ◌∷◌, ◌++◌, arith, ltb, leb, Bool-cases, pos, ◌==◌,
}
use mathlib.Core.List.{append_assoc, append-nil}
use zfs_nas_dashboard.Go.Strings.{Text, is_space}
use zfs_nas_dashboard.Go.Strings.Rows.{no_space, is_word}
use zfs_nas_dashboard.Go.Strconv.{
  is_digit, max_uint64, parse_digits, parse_uint, signed, parse_int, digits_within, itoa,
}

last_digit : (n : ℕ) → n < 10 → is_digit (b'0' + n) ≡ true
unfolding is_digit
last_digit n h = ground arith

parse_digit :
    (m d : ℕ) (s : Text)
    → d < 10
    → m * 10 + d ≤ max_uint64
    → parse_digits m ((b'0' + d) ∷ s) ≡ parse_digits (m * 10 + d) s
unfolding parse_digits
parse_digit m d s h k =
    let value : m * 10 + (b'0' + d - b'0') ≡ m * 10 + d = omega arith in
    let fits : ltb max_uint64 (m * 10 + d) ≡ false = ground (arith, k) in
    rw (last_digit d h, value, fits) refl

-- Behind the digits of a number, the loop has the number.
parse_digits-digits :
    (fuel n : ℕ) (s : Text)
    → n < fuel
    → n ≤ max_uint64
    → parse_digits 0 (digits_within fuel n ++ s) ≡ parse_digits n s
unfolding digits_within
parse_digits-digits zero n s h k = absurd (omega (arith, h))
parse_digits-digits (suc fuel) n s h k = elim (Bool-cases (ltb n 10)) [
  | inl e ↦ rw e (
      parse_digit 0 n s (ground (arith, e)) (omega (arith, k))
      ∙ ap (λ x. parse_digits x s) (omega arith))
  | inr e ↦
      let big : 10 ≤ n = ground (arith, e) in
      rw e (
        ap (parse_digits 0) (append_assoc (digits_within fuel (n / 10)) ((b'0' + n % 10) ∷ []) s)
        ∙ parse_digits-digits fuel (n / 10) ((b'0' + n % 10) ∷ s) (omega (arith, h, big))
            (omega (arith, k))
        ∙ parse_digit (n / 10) (n % 10) s (omega arith) (omega (arith, k))
        ∙ ap (λ x. parse_digits x s) (omega arith))
]

abbrev all_digits : Text → Bool
all_digits [] = true
all_digits (c ∷ s) = is_digit c && all_digits s

all_digits-append : (s t : Text) → all_digits (s ++ t) ≡ (all_digits s && all_digits t)
all_digits-append [] t = refl
all_digits-append (c ∷ s) t = ground (arith, all_digits-append s t)

digits-all_digits : (fuel n : ℕ) → all_digits (digits_within fuel n) ≡ true
unfolding digits_within
digits-all_digits zero n = refl
digits-all_digits (suc fuel) n = elim (Bool-cases (ltb n 10)) [
  | inl e ↦ rw e (ap (λ b. b && true) (last_digit n (ground (arith, e))))
  | inr e ↦ rw e (
      all_digits-append (digits_within fuel (n / 10)) ((b'0' + n % 10) ∷ [])
      ∙ rw (digits-all_digits fuel (n / 10), last_digit (n % 10) (omega arith)) refl)
]

not_empty : Text → Bool
not_empty [] = false
not_empty (c ∷ s) = true

not_empty-append : (s : Text) (c : ℕ) → not_empty (s ++ c ∷ []) ≡ true
unfolding not_empty
not_empty-append [] c = refl
not_empty-append (d ∷ s) c = refl

digits-not_empty : (fuel n : ℕ) → not_empty (digits_within (suc fuel) n) ≡ true
unfolding digits_within
digits-not_empty fuel n = elim (Bool-cases (ltb n 10)) [
  | inl e ↦ rw e (unfold not_empty in refl)
  | inr e ↦ rw e (not_empty-append (digits_within fuel (n / 10)) (b'0' + n % 10))
]

digit-not_space : (c : ℕ) → is_digit c ≡ true → is_space c ≡ false
unfolding is_digit is_space
digit-not_space c h = ground arith

digits-no_space : (s : Text) → all_digits s ≡ true → no_space s ≡ true
digits-no_space [] h = refl
digits-no_space (c ∷ s) h = ground (arith, digits-no_space s, digit-not_space c)

digits-is_word : (s : Text) → not_empty s ≡ true → all_digits s ≡ true → is_word s ≡ true
unfolding not_empty
digits-is_word [] h k = cc h
digits-is_word (c ∷ s) h k = digits-no_space (c ∷ s) k

digit-not_sign : (c : ℕ) → is_digit c ≡ true → ((c == b'+') ≡ false) × ((c == b'-') ≡ false)
unfolding is_digit
digit-not_sign c h = ground arith

parse_int-plain :
    (s : Text) (n : ℕ)
    → not_empty s ≡ true
    → all_digits s ≡ true
    → parse_digits 0 s ≡ (n, none)
    → n < 2 ^ 63
    → parse_int s ≡ (pos n, none)
unfolding not_empty parse_int parse_uint signed
parse_int-plain [] n h k e l = cc h
parse_int-plain (c ∷ s) n h k e l =
    let (plus, minus) = digit-not_sign c (ground (arith, k)) in
    let fits : leb (2 ^ 63) n ≡ false = ground (arith, l) in rw (plus, minus, e, fits) refl

-- The digits of a number have no blank; and a number below 2^63 is read back from them.
pub itoa-is_word : (n : ℕ) → is_word (itoa (pos n)) ≡ true
unfolding itoa
itoa-is_word n =
    digits-is_word (digits_within (suc n) n) (digits-not_empty n n) (digits-all_digits (suc n) n)

pub parse_int-itoa : (n : ℕ) → n < 2 ^ 63 → parse_int (itoa (pos n)) ≡ (pos n, none)
unfolding itoa
parse_int-itoa n h =
    parse_int-plain (digits_within (suc n) n) n (digits-not_empty n n) (digits-all_digits (suc n) n)
      (ap (parse_digits 0) (sym (append-nil (digits_within (suc n) n)))
        ∙ parse_digits-digits (suc n) n [] (omega arith) (omega (arith, h))
        ∙ unfold parse_digits in refl)
      h
