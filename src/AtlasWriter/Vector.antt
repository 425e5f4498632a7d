-- ===== src/AtlasWriter/Vector.antt =====
-- The loops of populateDataVec: what each column leaves in the vector.
use native.Mathlib.Nat.{mod-eq_of_lt, add-mul-mod_self_right, mul-div_cancel}
use monio.Base.{
  ℕ, zero, suc, ◌+◌, ◌*◌, ◌%◌, ◌/◌, ◌^◌, ◌≤◌, ◌<◌, ◌≡◌, refl, ap, sym, ◌∙◌, ◌≢◌, List, some, length,
  set, get_elem?, ◌==◌, nat_eq, ==_iff, lt→ltb, arith, length-set, get_elem?-set_self,
  get_elem?-set_ne, Bool-cases, inl, inr,
}
use monio.Result.{ok}
use monio.Atlas.{ArrayView}
use monio.Atlas.Access.{view_get-eq}
use monio.AtlasReader.Columns.{cell_index-eq}
use monio.AtlasReader.Populate.{index-lt}
use monio.AtlasWriter.{store, write_levels}

-- A place in the data determines its entry and its level.
pub index_inj : (n e l e' l' : ℕ) → e < n → e' < n → e + l * n ≡ e' + l' * n → (e ≡ e') × (l ≡ l')
index_inj n e l e' l' h h' p =
    let same : e ≡ e' =
      sym (mod-eq_of_lt h)
      ∙ sym (add-mul-mod_self_right e l n)
      ∙ ap (λ (t : ℕ). t % n) p
      ∙ add-mul-mod_self_right e' l' n
      ∙ mod-eq_of_lt h' in
    let times : l * n ≡ l' * n = omega arith in
    let some_column : 0 < n = omega arith in
    (
      same,
      sym (mul-div_cancel l some_column)
          ∙ ap (λ (t : ℕ). t / n) times
          ∙ mul-div_cancel l' some_column,
    )

module _ {F V : Type 0} (view : ArrayView F V) where
  -- What a column's loop leaves: its levels written, every other place as it was.
  pub record Wrote (f : F) (n entry i j count : ℕ) (before after : List V) : Type 0 where
    pub size : length after ≡ length before
    pub hit :
        (l : ℕ) → j ≤ l → l < j + count → get_elem? after (entry + l * n) ≡ some (view.read f i l)
    pub miss :
        (p : ℕ)
        → ((l : ℕ) → j ≤ l → l < j + count → p ≢ entry + l * n)
        → get_elem? after p ≡ get_elem? before p

  pub store-eq :
      (data_vec : List V) (i : ℕ) (v : V)
      → i < length data_vec
      → store data_vec i v ≡ ok (set data_vec i v)
  unfolding store
  store-eq data_vec i v h = rw (lt→ltb i (length data_vec) h)

  pub write_levels-Wrote :
      (f : F) (n entry i j count : ℕ) (data_vec : List V)
      → length data_vec ≤ 2 ^ 31
      → i < view.columns f
      → j + count ≤ view.levels f
      → n * (j + count) ≤ length data_vec
      → entry < n
      → (after : List V) × (write_levels view f n entry i j count data_vec ≡ ok after)
        × Wrote f n entry i j count data_vec after
  unfolding write_levels
  write_levels-Wrote f n entry i j zero data_vec small hi hj hn he = (
    data_vec,
    refl,
    record { size = refl; hit = λ l a b. absurd (omega arith); miss = λ p h. refl },
  )
  write_levels-Wrote f n entry i j (suc count) data_vec small hi hj hn he =
      let v = view.read f i j in
      let inside : entry + j * n < length data_vec =
        omega (arith, index-lt n (j + suc count) j entry he (omega arith)) in
      let data_vec' = set data_vec (entry + j * n) v in
      let same = length-set data_vec (entry + j * n) v in
      let (after, r, w) =
        write_levels-Wrote f n entry i (suc j) count data_vec' (rw same small) hi (omega arith)
          (omega (arith, same)) he in
      (
        after,
        rw
            (
              view_get-eq view f i j hi (omega arith),
              cell_index-eq n entry j (omega arith),
              store-eq data_vec (entry + j * n) v inside,
            )
            r,
        record {
          size = w.size ∙ same;
          hit = λ l a b. elim (Bool-cases (l == j)) [
            | inr later ↦ w.hit l (ground arith) (omega arith)
            | inl now ↦
                let at_l : l ≡ j = (==_iff l j).0 now in
                rw at_l (
                  w.miss (entry + j * n)
                    (λ l' a' b' p. let (_, q) = index_inj n entry j entry l' he he p in omega arith)
                  ∙ get_elem?-set_self data_vec (entry + j * n) v inside)
          ];
          miss = λ p h.
              w.miss p (λ l a b. h l (omega arith) (omega arith))
              ∙ get_elem?-set_ne data_vec (entry + j * n) p v
                  (λ e. h j (omega arith) (omega arith) (sym e));
        },
      )
