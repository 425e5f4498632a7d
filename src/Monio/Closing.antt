-- ===== src/Monio/Closing.antt =====
-- What the calls of Monio leave of its two files: the rules for the calls of src/monio/Monio.cc.
pub mod Initialise
pub mod Files
pub mod Reading
pub mod Writing
use monio.Base.{
  ℕ, ◌≡◌, ◌≢◌, refl, Bool, true, false, if◌then◌else◌, ◌⊎◌, inl, inr, none, some, arith,
}
use monio.Result.{Result, ok, err, Error, closes_files, netcdf_exception}
use monio.Exec.{Exec, on_error_where}
use monio.Exec.Closes.{Closes, Closes-ok, Closes-cleaning}
use monio.Map.{Map}
use monio.Heap.{Heap}
use monio.FileData.{FileData}
use monio.Reader.Closing as ReaderClosing
use monio.Reader.{Reader}
use monio.Writer.Closing as WriterClosing
use monio.Writer.{Writer}
use monio.Monio.State.{
  Monio, close_files, component, throwing, on_reader, on_writer, with_reader, with_writer, state,
  set_heap, set_dim_count, set_files_data, catching,
}

module _ {File DateTime : Type 0} where
  unfoldable pub IsReaderClosed : Monio File DateTime → Type 0
  IsReaderClosed s = s.reader.file ≡ none

  unfoldable pub IsWriterClosed : Monio File DateTime → Type 0
  IsWriterClosed s = s.writer.file ≡ none

  -- A call that returns leaves the file closed, and so does one that throws, unless the error is one
  -- of `Outside`; an exception of the NetCDF library is not among those that reach the caller.
  unfoldable pub EndsClosed :
      {A : Type 0}
      → (Error → Type 0)
      → (Monio File DateTime → Type 0)
      → Result A × Monio File DateTime
      → Type 0
  EndsClosed Outside IsClosed (ok a, s) = IsClosed s
  EndsClosed Outside IsClosed (err e, s) = ((Outside e) × (e ≢ netcdf_exception)) ⊎ IsClosed s

  pub close_files-IsReaderClosed : (s : Monio File DateTime) → IsReaderClosed (close_files s)
  unfolding IsReaderClosed close_files
  close_files-IsReaderClosed s = ReaderClosing.closed-IsClosed s.reader

  pub close_files-IsWriterClosed : (s : Monio File DateTime) → IsWriterClosed (close_files s)
  unfolding IsWriterClosed close_files
  close_files-IsWriterClosed s = WriterClosing.closed-IsClosed s.writer

  cleared :
      {A : Type 0} (Outside : Error → Type 0) (IsClosed : Monio File DateTime → Type 0)
      → ((s : Monio File DateTime) → IsClosed (close_files s))
      → (r : Result A) (s : Monio File DateTime)
      → ((e : Error) → r ≡ err e → Outside e ⊎ IsClosed s)
      → (e : Error) → (on_error_where closes_files close_files (r, s)).0 ≡ err e
      → Outside e ⊎ IsClosed (on_error_where closes_files close_files (r, s)).1
  cleared Outside IsClosed shut (ok a) s h e p = absurd cc
  cleared Outside IsClosed shut (err x) s h e p =
      elim (closes_files x) as (λ b. Outside e ⊎ IsClosed (if b then close_files s else s)) [
        | true ↦ inr (shut s)
        | false ↦ h e (cc)
      ]

  module _ (Outside : Error → Type 0) where
    pub on_reader-Closes :
        {A : Type 0} (call : Exec (Reader File) A)
        → Closes Outside ReaderClosing.IsClosed call
        → Closes Outside IsReaderClosed (on_reader call)
    unfolding on_reader IsReaderClosed
    on_reader-Closes call h = record {
      at = λ s e p.
          let (r, reader) = call s.reader in
          cleared Outside IsReaderClosed close_files-IsReaderClosed r (record s { reader = reader })
            (h.at s.reader) e p;
    }

    pub on_writer-Closes :
        {A : Type 0} (call : Exec (Writer File) A)
        → Closes Outside WriterClosing.IsClosed call
        → Closes Outside IsWriterClosed (on_writer call)
    unfolding on_writer IsWriterClosed
    on_writer-Closes call h = record {
      at = λ s e p.
          let (r, writer) = call s.writer in
          cleared Outside IsWriterClosed close_files-IsWriterClosed r (record s { writer = writer })
            (h.at s.writer) e p;
    }

    module _ (IsClosed : Monio File DateTime → Type 0) where
      pub state-Closes : Closes Outside IsClosed state
      state-Closes = Closes-ok state (λ s. (s, refl))

      pub set_heap-Closes : (h : Heap) → Closes Outside IsClosed (set_heap h)
      set_heap-Closes h = Closes-ok (set_heap h) (λ s. (tt, refl))

      pub set_dim_count-Closes : (n : ℕ) → Closes Outside IsClosed (set_dim_count n)
      set_dim_count-Closes n = Closes-ok (set_dim_count n) (λ s. (tt, refl))

      pub set_files_data-Closes :
          (files : Map (FileData DateTime)) → Closes Outside IsClosed (set_files_data files)
      set_files_data-Closes files = Closes-ok (set_files_data files) (λ s. (tt, refl))

  -- The handler for an exception of the library, over a call that closes.
  pub catching-EndsClosed :
      {A : Type 0} (Outside : Error → Type 0) (IsClosed : Monio File DateTime → Type 0) (x : Error)
      (r : Result A × Monio File DateTime)
      → ((s : Monio File DateTime) → IsClosed (close_files s))
      → ((e : Error) → r.0 ≡ err e → Outside e ⊎ IsClosed r.1)
      → ((a : A) → r.0 ≡ ok a → IsClosed r.1)
      → EndsClosed Outside IsClosed (catching x r)
  unfolding EndsClosed
  catching-EndsClosed Outside IsClosed x (err netcdf_exception, s) shut h k = inr (shut s)
  catching-EndsClosed Outside IsClosed x (ok a, s) shut h k = k a refl
  catching-EndsClosed Outside IsClosed x (err e, s) shut h k = elim (h e refl) [
    | inl o ↦ inl (o, λ p. absurd cc)
    | inr c ↦ inr c
  ]

  module _ (Outside : Error → Type 0) (IsClosed : Monio File DateTime → Type 0) where
    pub if-EndsClosed :
        {A : Type 0} (b : Bool) (m n : Exec (Monio File DateTime) A) (s : Monio File DateTime)
        → (b ≡ true → EndsClosed Outside IsClosed (m s))
        → EndsClosed Outside IsClosed (n s)
        → EndsClosed Outside IsClosed ((if b then m else n) s)
    if-EndsClosed true m n s p q = p refl
    if-EndsClosed false m n s p q = q

    pub throwing-EndsClosed :
        (A : Type 0) (e : Error) (s : Monio File DateTime)
        → ((s : Monio File DateTime) → IsClosed (close_files s))
        → EndsClosed {A = A} Outside IsClosed (throwing e s)
    unfolding EndsClosed
    throwing-EndsClosed A e s shut = inr (shut s)
