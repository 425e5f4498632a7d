-- ===== src/Metadata/Convention.antt =====
-- getVariableConvention, on global attributes that others are added to.
use monio.Base.{
  String, ◌≡◌, ◌≢◌, refl, none, [], ◌∷◌, ℤ, negsuc, arith, ◌==◌, string_eq, int_eq, ==_ne,
  if◌then◌else◌, not, Bool-cases, inl, inr,
}
use monio.Result.{>>=-cong, ok}
use monio.Constants.{variable_convention_name, naming_conventions}
use monio.Map.Order.{key_lt}
use monio.Map.{Map, lookup, insert}
use monio.Utils.{find_pos_in_vector}
use monio.Variable.{Attribute, attribute_string}
use monio.Metadata.{convention_from, convention_text}

-- What a text found under the name makes of the convention so far.
abbrev pub read_convention : String → ℤ → ℤ
read_convention text convention =
    let position = find_pos_in_vector naming_conventions text in
    if not (position == negsuc 0) then position else convention

pub convention_from_absent :
    (c : ℤ) (m : Map Attribute)
    → lookup variable_convention_name m ≡ none
    → convention_from c m ≡ ok c
unfolding convention_from lookup
convention_from_absent c [] h = refl
convention_from_absent c ((k, a) ∷ m) h = elim (Bool-cases (k == variable_convention_name)) [
  | inl here ↦ absurd (ground arith)
  | inr other ↦
      let rest : lookup variable_convention_name m ≡ none = rw other at h in
      rw other (convention_from_absent c m rest)
]

pub convention_from-insert :
    (c : ℤ) (text : String) (m : Map Attribute)
    → lookup variable_convention_name m ≡ none
    → convention_from c
        (insert variable_convention_name (attribute_string variable_convention_name text) m)
      ≡ ok (read_convention text c)
unfolding insert convention_from lookup convention_text
convention_from-insert c text [] h = refl
convention_from-insert c text ((k, a) ∷ m) h = elim (Bool-cases (k == variable_convention_name)) [
  | inl here ↦ absurd (ground arith)
  | inr other ↦
      let rest : lookup variable_convention_name m ≡ none = rw other at h in
      elim (Bool-cases (key_lt k variable_convention_name)) [
        | inl before ↦ rw (before, other) (convention_from-insert c text m rest)
        | inr after ↦
            rw (after, other) (convention_from_absent (read_convention text c) ((k, a) ∷ m) h)
      ]
]

pub convention_from-insert_other :
    (c : ℤ) (k : String) (a : Attribute) (m : Map Attribute)
    → k ≢ variable_convention_name
    → convention_from c (insert k a m) ≡ convention_from c m
unfolding insert convention_from
convention_from-insert_other c k a [] h = rw (==_ne k variable_convention_name h)
convention_from-insert_other c k a ((j, b) ∷ m) h =
    let apart = ==_ne k variable_convention_name h in
    let rest = λ (d : ℤ). convention_from-insert_other d k a m h in
    elim (Bool-cases (key_lt j k)) [
      | inl before ↦ elim (Bool-cases (j == variable_convention_name)) [
        | inl here ↦
            rw (before, here)
              (>>=-cong (convention_text b) _ _ (λ text. rest (read_convention text c)))
        | inr other ↦ rw (before, other) (rest c)
      ]
      | inr after ↦ elim (Bool-cases (j == k)) [
        | inl same ↦ rw (after, same)
        | inr other ↦ rw (after, other, apart)
      ]
    ]
