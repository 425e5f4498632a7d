-- ===== src/Utils/Booleans.antt =====
-- strToBool reads a truth value whatever its case and white space.
use monio.Base.{
  ℕ, ◌+◌, ◌≤◌, ◌<◌, inl, inr, Bool-cases, subst, sym, ◌∙◌, if◌then◌else◌, ==_iff, ◌≡◌, refl, ◌↔◌,
  Bool, true, false, Option, none, some, List, [], ◌∷◌, ◌++◌, arith, ◌⊎◌, codes, ◌==◌, nat_eq,
  length, ◌&&◌,
}
use monio.Result.{Result, ok, err, invalid_bool}
use monio.Utils.{is_space, to_lower, str_no_white_space, str_tolower, str_to_bool, chars_eq}

-- What is left of a text for the comparison.
abbrev pub cleaned : List ℕ → List ℕ
cleaned input = str_no_white_space (str_tolower input)

abbrev pub accepted : Result Bool → Option Bool
accepted (ok b) = some b
accepted (err e) = none

pub chars_eq_iff : (xs ys : List ℕ) → (chars_eq xs ys ≡ true) ↔ (xs ≡ ys)
unfolding chars_eq
chars_eq_iff [] [] = ground arith
chars_eq_iff [] (y ∷ ys) = ground arith
chars_eq_iff (x ∷ xs) [] = ground arith
chars_eq_iff (x ∷ xs) (y ∷ ys) = ground (arith, chars_eq_iff xs ys)

no_white_space-append :
    (xs ys : List ℕ)
    → str_no_white_space (xs ++ ys) ≡ str_no_white_space xs ++ str_no_white_space ys
unfolding str_no_white_space
no_white_space-append [] ys = refl
no_white_space-append (x ∷ xs) ys = ground (arith, no_white_space-append xs ys)

to_lower-is_space : (c : ℕ) → is_space (to_lower c) ≡ is_space c
unfolding is_space to_lower
to_lower-is_space c = ground arith

-- The length test before a comparison changes nothing.
length-eq : (xs ys : List ℕ) → (length xs == length ys && chars_eq xs ys) ≡ chars_eq xs ys
unfolding chars_eq
length-eq [] [] = refl
length-eq [] (y ∷ ys) = ground arith
length-eq (x ∷ xs) [] = ground arith
length-eq (x ∷ xs) (y ∷ ys) = ground (arith, length-eq xs ys)

-- A space, or one of the controls from the horizontal tab to the carriage return.
abbrev IsWhite : ℕ → Type 0
IsWhite c = (c ≡ 32) ⊎ ((9 ≤ c) × (c ≤ 13))

-- The letter itself, or the capital of it: those from A to Z stand 32 places before their small ones.
abbrev SameLetter : ℕ → ℕ → Type 0
SameLetter w c = (w ≡ c) ⊎ ((65 ≤ c) × (c ≤ 90) × (w ≡ c + 32))

-- The text has the letters of the word in order, each small or capital, with white space anywhere
-- between them and nothing else.
abbrev pub Spells : List ℕ → List ℕ → Type 0
Spells [] [] = Unit {0}
Spells (w ∷ word) [] = ⊥
Spells [] (c ∷ input) = IsWhite c × Spells [] input
Spells (w ∷ word) (c ∷ input) =
    (IsWhite c × Spells (w ∷ word) input) ⊎ (SameLetter w c × Spells word input)

-- A word of visible characters without capitals.
abbrev IsPlain : List ℕ → Type 0
IsPlain [] = Unit {0}
IsPlain (w ∷ word) = ((33 ≤ w) × ((w < 65) ⊎ (90 < w))) × IsPlain word

cleaned-cons :
    (c : ℕ) (input : List ℕ)
    → cleaned (c ∷ input) ≡ (if is_space c then cleaned input else to_lower c ∷ cleaned input)
unfolding str_no_white_space str_tolower
cleaned-cons c input = ground (arith, to_lower-is_space c)

is_space_iff : (c : ℕ) → (is_space c ≡ true) ↔ IsWhite c
unfolding is_space
is_space_iff c = ground (arith, ==_iff c 32)

to_lower-SameLetter : (c : ℕ) → SameLetter (to_lower c) c
unfolding to_lower
to_lower-SameLetter c = ground arith

SameLetter-to_lower : (w c : ℕ) → (w < 65) ⊎ (90 < w) → SameLetter w c → to_lower c ≡ w
unfolding to_lower
SameLetter-to_lower w c plain same = ground arith

SameLetter-visible : (w c : ℕ) → 33 ≤ w → (w < 65) ⊎ (90 < w) → SameLetter w c → is_space c ≡ false
unfolding is_space
SameLetter-visible w c visible plain same = ground arith

skips :
    (word : List ℕ) (c : ℕ) (input : List ℕ)
    → IsWhite c
    → Spells word input
    → Spells word (c ∷ input)
skips [] c input white h = (white, h)
skips (w ∷ word) c input white h = inl (white, h)

Spells-cleaned : (input : List ℕ) → Spells (cleaned input) input
unfolding str_no_white_space str_tolower
Spells-cleaned [] = tt
Spells-cleaned (c ∷ input) =
    let rest = Spells-cleaned input in
    elim (Bool-cases (is_space c)) [
      | inl white ↦
          let here : cleaned (c ∷ input) ≡ cleaned input = cleaned-cons c input ∙ (rw white) in
          subst (λ (word : List ℕ). Spells word (c ∷ input)) (sym here)
            (skips (cleaned input) c input ((is_space_iff c).0 white) rest)
      | inr letter ↦
          let here : cleaned (c ∷ input) ≡ to_lower c ∷ cleaned input =
            cleaned-cons c input ∙ (rw letter) in
          subst (λ (word : List ℕ). Spells word (c ∷ input)) (sym here)
            (inr (to_lower-SameLetter c, rest))
    ]

cleaned-Spells : (word input : List ℕ) → IsPlain word → Spells word input → cleaned input ≡ word
unfolding str_no_white_space str_tolower
cleaned-Spells [] [] plain h = refl
cleaned-Spells (w ∷ word) [] plain h = absurd h
cleaned-Spells [] (c ∷ input) plain h =
    cleaned-cons c input ∙ (rw ((is_space_iff c).1 h.0) (cleaned-Spells [] input plain h.1))
cleaned-Spells (w ∷ word) (c ∷ input) plain (inl h) =
    cleaned-cons c input ∙ (rw ((is_space_iff c).1 h.0) (cleaned-Spells (w ∷ word) input plain h.1))
cleaned-Spells (w ∷ word) (c ∷ input) plain (inr h) =
    let visible = SameLetter-visible w c plain.0.0 plain.0.1 h.0 in
    let lower = SameLetter-to_lower w c plain.0.1 h.0 in
    cleaned-cons c input ∙ (rw (visible, lower, cleaned-Spells word input plain.1 h.1))

cleaned_iff : (word input : List ℕ) → IsPlain word → (cleaned input ≡ word) ↔ Spells word input
cleaned_iff word input plain = (
  (λ e. subst (λ (w : List ℕ). Spells w input) e (Spells-cleaned input)),
  cleaned-Spells word input plain,
)

pub Reads : List ℕ → Result Bool → Type 0
Reads input r =
    ((r ≡ ok true) × (Spells (codes "1") input ⊎ Spells (codes "true") input))
    ⊎ ((r ≡ ok false) × (Spells (codes "0") input ⊎ Spells (codes "false") input))
    ⊎ ((r ≡ err (invalid_bool input))
        × ¬ Spells (codes "1") input
        × ¬ Spells (codes "true") input
        × ¬ Spells (codes "0") input
        × ¬ Spells (codes "false") input)

plain_word :
    (input word : List ℕ)
    → IsPlain word
    → (chars_eq (cleaned input) word ≡ true) ↔ Spells word input
plain_word input word plain =
    let (same, made) = chars_eq_iff (cleaned input) word in
    let (spells, cleans) = cleaned_iff word input plain in
    ((λ h. spells (same h)), (λ h. made (cleans h)))

-- strToBool reads a text as true exactly where it spells 1 or true, and as false where it spells 0 or
-- false, with each letter in either case and white space anywhere, and refuses every other text with
-- an error that names it. Letters and white space are those of the C locale.
pub str_to_bool-Reads : (input : List ℕ) → Reads input (str_to_bool input)
unfolding Reads str_to_bool
str_to_bool-Reads input =
    let clean = cleaned input in
    let one : (chars_eq clean (codes "1") ≡ true) ↔ Spells (codes "1") input =
      plain_word input (codes "1") (ground arith) in
    let yes : (chars_eq clean (codes "true") ≡ true) ↔ Spells (codes "true") input =
      plain_word input (codes "true") (ground arith) in
    let nought : (chars_eq clean (codes "0") ≡ true) ↔ Spells (codes "0") input =
      plain_word input (codes "0") (ground arith) in
    let no : (chars_eq clean (codes "false") ≡ true) ↔ Spells (codes "false") input =
      plain_word input (codes "false") (ground arith) in
    ground (
      arith,
      length-eq clean (codes "1"),
      length-eq clean (codes "true"),
      length-eq clean (codes "0"),
      length-eq clean (codes "false"),
    )
