-- ===== src/HtmlText/Colors.antt =====
-- The colours that src/utility/HtmlText.cpp reads.
use aniparse.Prelude.{
  ℕ, ◌+◌, ◌-◌, ◌/◌, ◌%◌, ◌<◌, Bool, true, false, [], ◌∷◌, ◌++◌, some, ◌≡◌, refl, ap, arith, ltb,
  Bytes, all_of, if◌then◌else◌,
}
use aniparse.HtmlText.Tidy.{remove_back-append}
use aniparse.HtmlText.Styles.{
  TextColor, is_blank, remove_front, trim, hex_digit, digit_pair, component, color_digits,
  hash_digits, color_value,
}

-- A digit, in lower or in upper case.
unfoldable pub digit_char : Bool → ℕ → ℕ
digit_char upper n =
    if ltb n 10 then b'0' + n else if upper then b'A' + (n - 10) else b'a' + (n - 10)

hex_digit-digit_char : (upper : Bool) (n : ℕ) → n < 16 → hex_digit (digit_char upper n) ≡ some n
unfolding hex_digit digit_char
hex_digit-digit_char true n h = ground (arith, h)
hex_digit-digit_char false n h = ground (arith, h)

is_blank-digit_char : (upper : Bool) (n : ℕ) → n < 16 → is_blank (digit_char upper n) ≡ false
unfolding is_blank digit_char
is_blank-digit_char true n h = ground (arith, h)
is_blank-digit_char false n h = ground (arith, h)

-- Two digits for each component.
unfoldable pub write_component : Bool → ℕ → Bytes
write_component upper n = digit_char upper (n / 16) ∷ digit_char upper (n % 16) ∷ []

unfoldable pub write_color : Bool → TextColor → Bytes
write_color upper color =
    b'#'
    ∷ (write_component upper color.red
        ++ (write_component upper color.green
            ++ (write_component upper color.blue ++ write_component upper color.alpha)))

remove_front-append :
    (front s : Bytes) (c : ℕ)
    → all_of is_blank front ≡ true
    → is_blank c ≡ false
    → remove_front is_blank (front ++ (c ∷ s)) ≡ c ∷ s
unfolding remove_front all_of
remove_front-append [] s c h p = ground (arith, p)
remove_front-append (d ∷ front) s c h p =
    ground (arith, h, remove_front-append front s c (ground (arith, h)) p)

-- The blanks around a text that begins and ends with other characters.
trim-around :
    (front : Bytes) (c : ℕ) (s : Bytes) (d : ℕ) (back' : Bytes)
    → all_of is_blank front ≡ true
    → is_blank c ≡ false
    → is_blank d ≡ false
    → all_of is_blank back' ≡ true
    → trim (front ++ (c ∷ (s ++ (d ∷ back')))) ≡ c ∷ (s ++ (d ∷ []))
unfolding trim
trim-around front c s d back' h p q h' =
    rw (remove_front-append front (s ++ (d ∷ back')) c h p)
      (remove_back-append is_blank (c ∷ s) d back' q h')

abbrev pub IsByte : ℕ → Type 0
IsByte n = n < 256

component_pair :
    (upper : Bool) (n : ℕ)
    → IsByte n
    → digit_pair (digit_char upper (n / 16)) (digit_char upper (n % 16)) ≡ some n
unfolding digit_pair
component_pair upper n h =
    rw
      (
        hex_digit-digit_char upper (n / 16) (omega (arith, h)),
        hex_digit-digit_char upper (n % 16) (omega arith),
      )
      (ap some (omega arith))

color_digits-write :
    (upper : Bool) (color : TextColor)
    → IsByte color.red
    → IsByte color.green
    → IsByte color.blue
    → IsByte color.alpha
    → color_digits (
        write_component upper color.red
        ++ (write_component upper color.green
            ++ (write_component upper color.blue ++ write_component upper color.alpha)))
      ≡ some color
unfolding color_digits component write_component
color_digits-write upper color r g b a =
    rw
      (
        component_pair upper color.red r,
        component_pair upper color.green g,
        component_pair upper color.blue b,
        component_pair upper color.alpha a,
      )
      refl

-- A colour written as `#` and eight digits, in either case and with blanks around it, is read back.
pub color_value-write :
    (upper : Bool) (color : TextColor) (front back' : Bytes)
    → IsByte color.red
    → IsByte color.green
    → IsByte color.blue
    → IsByte color.alpha
    → all_of is_blank front ≡ true
    → all_of is_blank back' ≡ true
    → color_value (front ++ (write_color upper color ++ back')) ≡ some color
unfolding color_value write_color hash_digits write_component
color_value-write upper color front back' r g b a h h' =
    let last = digit_char upper (color.alpha % 16) in
    let before =
      write_component upper color.red
      ++ (write_component upper color.green
          ++ (write_component upper color.blue ++ (digit_char upper (color.alpha / 16) ∷ []))) in
    let around =
      trim-around front b'#' before last back' h (unfold is_blank in refl)
        (is_blank-digit_char upper (color.alpha % 16) (omega arith)) h' in
    rw around (color_digits-write upper color r g b a)
