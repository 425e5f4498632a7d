-- ===== src/UtilsAtlas/Sizes.antt =====
-- The number of columns of a field that are its own.
use monio.Base.{
  ℕ, zero, suc, ◌<◌, ◌≤◌, ◌≡◌, ◌≢◌, refl, ◌∙◌, ap, sym, List, some, ℤ, pos, length, get_elem?,
  arith, ◌==◌, int_eq, nat_eq, ==_iff, ◌⊎◌, inl, inr, Bool-cases, Option-cases,
}
use monio.Atlas.Fields.{FieldLibrary}
use monio.UtilsAtlas.{size_below, get_horizontal_size}

-- The size ends at the last flag that is 0, or is 0 where none is.
abbrev pub EndsOwned : List ℤ → ℕ → ℕ → Type 0
EndsOwned ghost count size =
    ((size ≡ 0) ⊎ ((i : ℕ) × (size ≡ suc i) × (i < count) × (get_elem? ghost i ≡ some (pos 0))))
    × ((j : ℕ) → size ≤ j → j < count → get_elem? ghost j ≢ some (pos 0))

size_below-cases :
    (ghost : List ℤ) (i : ℕ)
    → ((get_elem? ghost i ≡ some (pos 0)) × (size_below ghost (suc i) ≡ suc i))
      ⊎ ((get_elem? ghost i ≢ some (pos 0)) × (size_below ghost (suc i) ≡ size_below ghost i))
unfolding size_below
size_below-cases ghost i = elim (Option-cases (get_elem? ghost i)) [
  | inl gone ↦ inr ((λ p. cc), rw (gone, size_below))
  | inr (flag, there) ↦ elim (Bool-cases (flag == pos 0)) [
    | inl owned ↦
        let at_zero : flag ≡ pos 0 = (==_iff flag (pos 0)).0 owned in
        inl (there ∙ ap some at_zero, rw (there, owned, size_below))
    | inr ghostly ↦
        let other : flag ≢ pos 0 = λ p. ground (arith, (==_iff flag (pos 0)).1 p) in
        inr ((λ p. other cc), rw (there, ghostly, size_below))
  ]
]

size_below-EndsOwned : (ghost : List ℤ) (count : ℕ) → EndsOwned ghost count (size_below ghost count)
size_below-EndsOwned ghost zero = (inl (unfold size_below in refl), λ j a b. absurd (omega arith))
size_below-EndsOwned ghost (suc i) =
    let (before, later) = size_below-EndsOwned ghost i in
    elim (size_below-cases ghost i) [
      | inl (owned, size) ↦
          rw size (inr (i, refl, omega arith, owned), λ j a b. absurd (omega arith))
      | inr (ghostly, size) ↦ rw size (
        (elim before [
          | inl none_owned ↦ inl none_owned
          | inr (k, last, inside, owned) ↦ inr (k, last, omega arith, owned)
        ]),
        (λ j a b p. elim (Bool-cases (j == i)) [
          | inl here ↦ ghostly (rw (sym ((==_iff j i).0 here)) p)
          | inr apart ↦ later j a (ground arith) p
        ]),
      )
    ]

-- getHorizontalSize is one more than the last index whose ghost flag is 0: that column is owned, and
-- all later ones are ghosts. It is 0 where all columns are ghosts.
pub get_horizontal_size-EndsOwned :
    {F : Type 0} (atlas : FieldLibrary F) (f : F)
    → EndsOwned (atlas.ghost f) (length (atlas.ghost f)) (get_horizontal_size atlas f)
unfolding get_horizontal_size
get_horizontal_size-EndsOwned atlas f =
    size_below-EndsOwned (atlas.ghost f) (length (atlas.ghost f))
