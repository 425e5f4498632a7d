-- ===== src/Utils.antt =====
-- src/monio/Utils.cc: words and truth values in texts, searches in vectors, keys of maps.
-- A text is the list of its characters here. exec and fileExists ask the operating system and are
-- not modelled; throwException is the error of `Result`.
pub mod Words
pub mod Booleans
pub mod Vectors
pub mod Keys
use monio.Base.{
  ℕ, zero, suc, ◌+◌, String, Bool, true, false, ◌&&◌, ◌||◌, not, List, [], ◌∷◌, map, length, leb,
  codes, if◌then◌else◌, ◌==◌, nat_eq, Eq, ℤ, pos, negsuc,
}
use monio.Result.{Result, ok, err, invalid_bool}
use monio.Map.{Map, keys}

-- std::getline on what is left of the stream: the characters up to the separator, and the rest.
get_line : ℕ → List ℕ → List ℕ × List ℕ
get_line separator [] = ([], [])
get_line separator (c ∷ cs) =
    let (word, rest) = get_line separator cs in
    if c == separator then ([], cs) else (c ∷ word, rest)

-- The `while (std::getline(...))` loop. It stops at the end of the stream; each round takes at least
-- one character, so that the length of the text is fuel enough.
read_words : ℕ → ℕ → List ℕ → List (List ℕ)
read_words fuel separator [] = []
read_words zero separator (c ∷ cs) = []
read_words (suc fuel) separator (c ∷ cs) =
    let line = get_line separator (c ∷ cs) in line.0 ∷ read_words fuel separator line.1

unfoldable pub str_to_words : List ℕ → ℕ → List (List ℕ)
unfolding get_line read_words
str_to_words input separator = read_words (length input) separator input

-- std::isspace and std::tolower in the C locale.
unfoldable pub is_space : ℕ → Bool
is_space c = c == 32 || (leb 9 c && leb c 13)

unfoldable pub to_lower : ℕ → ℕ
to_lower c = if leb b'A' c && leb c b'Z' then c + 32 else c

unfoldable pub str_no_white_space : List ℕ → List ℕ
unfolding is_space
str_no_white_space [] = []
str_no_white_space (c ∷ cs) =
    let rest = str_no_white_space cs in if is_space c then rest else c ∷ rest

unfoldable pub str_tolower : List ℕ → List ℕ
unfolding to_lower
str_tolower = map to_lower

-- `==` of two texts.
unfoldable pub chars_eq : List ℕ → List ℕ → Bool
chars_eq [] [] = true
chars_eq [] (y ∷ ys) = false
chars_eq (x ∷ xs) [] = false
chars_eq (x ∷ xs) (y ∷ ys) = x == y && chars_eq xs ys

unfoldable pub str_to_bool : List ℕ → Result Bool
unfolding chars_eq
str_to_bool input =
    let clean = str_no_white_space (str_tolower input) in
    if (length clean == 1 && chars_eq clean (codes "1"))
      || (length clean == 4 && chars_eq clean (codes "true"))
    then ok true
    else if (length clean == 1 && chars_eq clean (codes "0"))
        || (length clean == 5 && chars_eq clean (codes "false"))
    then ok false
    else err (invalid_bool input)

module _ {ℓ} {V : Type ℓ} where
  unfoldable pub extract_keys : Map V → List String
  extract_keys [] = []
  extract_keys ((k, v) ∷ m) = k ∷ extract_keys m

module _ {ℓ} {A : Type ℓ} ⦃e : Eq A⦄ where
  -- std::find, as the distance from the beginning; the length where nothing is found.
  unfoldable pub find : List A → A → ℕ
  find [] term = 0
  find (x ∷ xs) term = if x == term then 0 else suc (find xs term)

  unfoldable pub find_pos_in_vector : List A → A → ℤ
  unfolding find
  find_pos_in_vector vector term =
      let it = find vector term in if it == length vector then negsuc 0 else pos it

  unfoldable pub find_in_vector : List A → A → Bool
  unfolding find
  find_in_vector vector term = not (find vector term == length vector)
