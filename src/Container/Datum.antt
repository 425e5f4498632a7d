-- ===== src/Container/Datum.antt =====
-- Reads and writes of single values.
use monio.Base.{
  ℕ, zero, suc, ◌<◌, ◌≡◌, refl, ap, false, List, [], ◌∷◌, ◌++◌, some, length, get_elem?, ltb, arith,
  ◌⊎◌, inl, inr, Bool-cases, get_elem?_of_lt, get_elem?-eq-none, length-append, le→ltb_false,
}
use monio.Result.{ok, err, datum_index, undefined_access}
use monio.Container.{Container, get_datum, element, set_datum, resize}

module _ {T : Type 0} where
  abbrev pub ReadsDatum : Container T → ℕ → Type 0
  ReadsDatum c index =
      ((index < length c.data_vector)
        × ((v : T) × (get_elem? c.data_vector index ≡ some v) × (get_datum c index ≡ ok v)))
      ⊎ ((index ≡ length c.data_vector) × (get_datum c index ≡ err undefined_access))
      ⊎ ((length c.data_vector < index) × (get_datum c index ≡ err datum_index))

  -- getDatum returns the value at an index below the size and throws above it. The index equal to
  -- the size passes the check, and the read is then undefined.
  pub get_datum-cases : (c : Container T) (index : ℕ) → ReadsDatum c index
  unfolding get_datum
  get_datum-cases c index = elim (Bool-cases (ltb (length c.data_vector) index)) [
    | inl over ↦ inr (inr (ground arith, rw over))
    | inr within ↦ elim (Bool-cases (ltb index (length c.data_vector))) [
      | inl below ↦
          let h : index < length c.data_vector = ground arith in
          let (v, e) = get_elem?_of_lt c.data_vector index h in
          inl (h, (v, e, rw (within, e, element)))
      | inr at_end ↦
          let e : index ≡ length c.data_vector = ground arith in
          let gone = get_elem?-eq-none c.data_vector index (ground arith) in
          inr (inl (e, rw (within, gone, element)))
    ]
  ]

  pub get_elem?-append_last : (xs : List T) (v : T) → get_elem? (xs ++ v ∷ []) (length xs) ≡ some v
  get_elem?-append_last [] v = refl
  get_elem?-append_last (x ∷ xs) v = get_elem?-append_last xs v

  pub get_elem?-append_left :
      (xs ys : List T) (i : ℕ) → i < length xs → get_elem? (xs ++ ys) i ≡ get_elem? xs i
  get_elem?-append_left [] ys i h = elim h [ ]
  get_elem?-append_left (x ∷ xs) ys zero h = refl
  get_elem?-append_left (x ∷ xs) ys (suc i) h = get_elem?-append_left xs ys i (omega arith)

  pub length-resize : (filler : T) (n : ℕ) (xs : List T) → length (resize filler n xs) ≡ n
  unfolding resize
  length-resize filler zero xs = refl
  length-resize filler (suc n) [] = ap suc (length-resize filler n [])
  length-resize filler (suc n) (x ∷ xs) = ap suc (length-resize filler n xs)

  -- A value pushed by setDatum is read back by getDatum at the old size, and the earlier ones at
  -- their places.
  pub get_datum-set_datum :
      (c : Container T) (v : T)
      → (get_datum (set_datum c v) (length c.data_vector) ≡ ok v)
        × ((i : ℕ) → i < length c.data_vector → get_datum (set_datum c v) i ≡ get_datum c i)
  unfolding get_datum set_datum
  get_datum-set_datum c v =
      let size = length-append c.data_vector (v ∷ []) in
      let last : ltb (length (c.data_vector ++ v ∷ [])) (length c.data_vector) ≡ false =
        le→ltb_false _ _ (omega (arith, size)) in
      (
        rw (last, get_elem?-append_last c.data_vector v, element),
        λ i h.
            let before : ltb (length (c.data_vector ++ v ∷ [])) i ≡ false =
              le→ltb_false _ _ (omega (arith, size)) in
            let old : ltb (length c.data_vector) i ≡ false = le→ltb_false _ _ (omega arith) in
            rw (before, old, get_elem?-append_left c.data_vector (v ∷ []) i h, element),
      )
