-- ===== src/Map/Order.antt =====
-- The order of std::string: lexicographic on the characters.
use monio.Base.{
  ℕ, String, ◌≡◌, refl, ◌≢◌, Bool, true, false, List, [], ◌∷◌, arith, codes, codes_inj, ltb, ◌==◌,
  nat_eq, if◌then◌else◌,
}

pub codes_lt : List ℕ → List ℕ → Bool
codes_lt [] [] = false
codes_lt [] (y ∷ ys) = true
codes_lt (x ∷ xs) [] = false
codes_lt (x ∷ xs) (y ∷ ys) =
    let rest = codes_lt xs ys in if ltb x y then true else if x == y then rest else false

unfoldable pub key_lt : String → String → Bool
unfolding codes_lt
key_lt s t = codes_lt (codes s) (codes t)

codes_lt_trans :
    (xs ys zs : List ℕ) → codes_lt xs ys ≡ true → codes_lt ys zs ≡ true → codes_lt xs zs ≡ true
unfolding codes_lt
codes_lt_trans [] [] zs h k = cc
codes_lt_trans [] (y ∷ ys) [] h k = cc
codes_lt_trans [] (y ∷ ys) (z ∷ zs) h k = refl
codes_lt_trans (x ∷ xs) [] zs h k = cc
codes_lt_trans (x ∷ xs) (y ∷ ys) [] h k = cc
codes_lt_trans (x ∷ xs) (y ∷ ys) (z ∷ zs) h k = ground (arith, codes_lt_trans xs ys zs)

codes_lt_irrefl : (xs : List ℕ) → codes_lt xs xs ≡ false
unfolding codes_lt
codes_lt_irrefl [] = refl
codes_lt_irrefl (x ∷ xs) = ground (arith, codes_lt_irrefl xs)

codes_lt_total : (xs ys : List ℕ) → codes_lt xs ys ≡ false → xs ≢ ys → codes_lt ys xs ≡ true
unfolding codes_lt
codes_lt_total [] [] h n = absurd (n refl)
codes_lt_total [] (y ∷ ys) h n = cc
codes_lt_total (x ∷ xs) [] h n = refl
codes_lt_total (x ∷ xs) (y ∷ ys) h n = ground (arith, codes_lt_total xs ys)

pub key_lt_trans : (s t u : String) → key_lt s t ≡ true → key_lt t u ≡ true → key_lt s u ≡ true
unfolding key_lt
key_lt_trans s t u = codes_lt_trans (codes s) (codes t) (codes u)

pub key_lt_irrefl : (s : String) → key_lt s s ≡ false
unfolding key_lt
key_lt_irrefl s = codes_lt_irrefl (codes s)

pub key_lt_total : (s t : String) → key_lt s t ≡ false → s ≢ t → key_lt t s ≡ true
unfolding key_lt
key_lt_total s t h n = codes_lt_total (codes s) (codes t) h (λ e. n (codes_inj s t e))

pub key_lt-ne : (s t : String) → key_lt s t ≡ true → s ≢ t
key_lt-ne s t h e = ground (arith, key_lt_irrefl s)
