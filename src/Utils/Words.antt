-- ===== src/Utils/Words.antt =====
-- strToWords splits a text at each separator.
use mathlib.Core.List.{append_assoc}
use monio.Base.{
  ℕ, zero, suc, ◌≡◌, refl, sym, ap, ◌∙◌, ◌≢◌, ◌≤◌, ◌⊎◌, inl, inr, List, [], ◌∷◌, ◌++◌, length,
  length-append, arith, ◌==◌, nat_eq, ==_self, ==_ne, Bool-cases,
}
use monio.Utils.{get_line, read_words, str_to_words}

-- Each word followed by the separator.
abbrev pub terminate : ℕ → List (List ℕ) → List ℕ
terminate separator [] = []
terminate separator (w ∷ ws) = w ++ separator ∷ terminate separator ws

-- No character of a word is the separator.
abbrev pub Free : ℕ → List ℕ → Type 0
Free separator [] = Unit {0}
Free separator (c ∷ cs) = (c ≢ separator) × Free separator cs

abbrev pub AllFree : ℕ → List (List ℕ) → Type 0
AllFree separator [] = Unit {0}
AllFree separator (w ∷ ws) = Free separator w × AllFree separator ws

get_line-length :
    (separator c : ℕ) (cs : List ℕ) → length (get_line separator (c ∷ cs)).1 ≤ length cs
unfolding get_line
get_line-length separator c [] = ground arith
get_line-length separator c (d ∷ cs) = ground (arith, get_line-length separator d cs)

get_line-Free : (separator : ℕ) (cs : List ℕ) → Free separator (get_line separator cs).0
unfolding get_line
get_line-Free separator [] = tt
get_line-Free separator (c ∷ cs) = elim (Bool-cases (c == separator)) [
  | inl hit ↦ rw hit tt
  | inr miss ↦ rw miss ((λ p. ground arith), get_line-Free separator cs)
]

-- What getline takes is the text, up to a last separator that was not there.
get_line-append :
    (separator : ℕ) (cs : List ℕ)
    → ((get_line separator cs).0 ++ separator ∷ (get_line separator cs).1 ≡ cs)
      ⊎ (((get_line separator cs).0 ≡ cs) × ((get_line separator cs).1 ≡ []))
unfolding get_line
get_line-append separator [] = inr (refl, refl)
get_line-append separator (c ∷ cs) = ground (arith, get_line-append separator cs)

read_words-Free :
    (fuel separator : ℕ) (cs : List ℕ) → AllFree separator (read_words fuel separator cs)
unfolding read_words
read_words-Free fuel separator [] = tt
read_words-Free zero separator (c ∷ cs) = tt
read_words-Free (suc fuel) separator (c ∷ cs) =
    (get_line-Free separator (c ∷ cs), read_words-Free fuel separator _)

read_words_nil : (fuel separator : ℕ) → read_words fuel separator [] ≡ []
unfolding read_words
read_words_nil zero separator = refl
read_words_nil (suc fuel) separator = refl

read_words-terminate :
    (fuel separator : ℕ) (cs : List ℕ)
    → length cs ≤ fuel
    → (terminate separator (read_words fuel separator cs) ≡ cs)
      ⊎ (terminate separator (read_words fuel separator cs) ≡ cs ++ separator ∷ [])
unfolding read_words
read_words-terminate fuel separator [] h = inl refl
read_words-terminate zero separator (c ∷ cs) h = absurd (omega arith)
read_words-terminate (suc fuel) separator (c ∷ cs) h =
    let line = get_line separator (c ∷ cs) in
    let small = get_line-length separator c cs in
    elim (get_line-append separator (c ∷ cs)) [
      | inl whole ↦ elim (read_words-terminate fuel separator line.1 (omega arith)) [
        | inl e ↦ inl (rw e whole)
        | inr e ↦ inr (
            rw e (
              sym (append_assoc line.0 (separator ∷ line.1) (separator ∷ []))
              ∙ ap (λ t. t ++ separator ∷ []) whole))
      ]
      | inr (all, none_left) ↦ inr (rw (all, none_left))
    ]

get_line_word :
    (separator : ℕ) (w cs : List ℕ)
    → Free separator w
    → get_line separator (w ++ separator ∷ cs) ≡ (w, cs)
unfolding get_line
get_line_word separator [] cs f = rw (==_self separator)
get_line_word separator (c ∷ w) cs f = rw (==_ne c separator f.0, get_line_word separator w cs f.1)

read_words_word :
    (fuel separator : ℕ) (w cs : List ℕ)
    → Free separator w
    → read_words (suc fuel) separator (w ++ separator ∷ cs) ≡ w ∷ read_words fuel separator cs
unfolding read_words
read_words_word fuel separator [] cs f = rw (get_line_word separator [] cs f)
read_words_word fuel separator (c ∷ w) cs f = rw (get_line_word separator (c ∷ w) cs f)

read_words_terminated :
    (fuel separator : ℕ) (ws : List (List ℕ))
    → length (terminate separator ws) ≤ fuel
    → AllFree separator ws
    → read_words fuel separator (terminate separator ws) ≡ ws
read_words_terminated fuel separator [] h f = read_words_nil fuel separator
read_words_terminated zero separator (w ∷ ws) h f =
    absurd (omega (arith, length-append w (separator ∷ terminate separator ws)))
read_words_terminated (suc fuel) separator (w ∷ ws) h f =
    read_words_word fuel separator w (terminate separator ws) f.0
    ∙ ap (◌∷◌ w) (
        read_words_terminated fuel separator ws
          (omega (arith, length-append w (separator ∷ terminate separator ws))) f.1)

-- Splitting a text and ending each word by the separator gives back the text, with a separator at
-- its end where it had none; and no word holds a separator. So the loop reads the whole text.
pub str_to_words-terminate :
    (input : List ℕ) (separator : ℕ)
    → AllFree separator (str_to_words input separator)
      × ((terminate separator (str_to_words input separator) ≡ input)
          ⊎ (terminate separator (str_to_words input separator) ≡ input ++ separator ∷ []))
unfolding str_to_words
str_to_words-terminate input separator = (
  read_words-Free (length input) separator input,
  read_words-terminate (length input) separator input (omega arith),
)

-- Words without the separator, each followed by it, are read back as they were.
pub str_to_words_terminated :
    (separator : ℕ) (ws : List (List ℕ))
    → AllFree separator ws
    → str_to_words (terminate separator ws) separator ≡ ws
unfolding str_to_words
str_to_words_terminated separator ws f = read_words_terminated _ separator ws (omega arith) f

get_line_all : (separator : ℕ) (w : List ℕ) → Free separator w → get_line separator w ≡ (w, [])
unfolding get_line
get_line_all separator [] f = refl
get_line_all separator (c ∷ w) f = rw (==_ne c separator f.0, get_line_all separator w f.1)

read_words_last :
    (fuel separator c : ℕ) (w : List ℕ)
    → Free separator (c ∷ w)
    → read_words (suc fuel) separator (c ∷ w) ≡ (c ∷ w) ∷ []
unfolding read_words
read_words_last fuel separator c w f =
    rw (get_line_all separator (c ∷ w) f, read_words_nil fuel separator)

read_words_pair :
    (fuel separator c : ℕ) (first second : List ℕ)
    → length (first ++ separator ∷ c ∷ second) ≤ fuel
    → Free separator first
    → Free separator (c ∷ second)
    → read_words fuel separator (first ++ separator ∷ c ∷ second) ≡ first ∷ (c ∷ second) ∷ []
read_words_pair zero separator c first second h f g =
    absurd (omega (arith, length-append first (separator ∷ c ∷ second)))
read_words_pair (suc zero) separator c first second h f g =
    absurd (omega (arith, length-append first (separator ∷ c ∷ second)))
read_words_pair (suc (suc fuel)) separator c first second h f g =
    read_words_word (suc fuel) separator first (c ∷ second) f
    ∙ ap (◌∷◌ first) (read_words_last fuel separator c second g)

-- A text of two words with one separator between them.
pub str_to_words_pair :
    (separator c : ℕ) (first second : List ℕ)
    → Free separator first
    → Free separator (c ∷ second)
    → str_to_words (first ++ separator ∷ c ∷ second) separator ≡ first ∷ (c ∷ second) ∷ []
unfolding str_to_words
str_to_words_pair separator c first second f g =
    read_words_pair _ separator c first second (omega arith) f g
