-- ===== src/Examples/Values.antt =====
-- Texts and vectors.
use monio.Base.{ℕ, ◌≡◌, ◌⊎◌, ◌++◌, List, [], ◌∷◌, codes, string_eq}
use monio.Utils.{str_to_bool, str_to_words}
use monio.Utils.Booleans.{Reads, str_to_bool-Reads}
use monio.Utils.Words.{AllFree, terminate, str_to_words-terminate}

str_to_bool-Reads_example : Reads (codes " True ") (str_to_bool (codes " True "))
str_to_bool-Reads_example = str_to_bool-Reads (codes " True ")

abbrev line : List ℕ
line = codes "a,b,,c"

str_to_words-terminate_example :
    AllFree b',' (str_to_words line b',')
    × ((terminate b',' (str_to_words line b',') ≡ line)
        ⊎ (terminate b',' (str_to_words line b',') ≡ line ++ b',' ∷ []))
str_to_words-terminate_example = str_to_words-terminate line b','
