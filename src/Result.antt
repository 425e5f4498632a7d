-- ===== src/Result.antt =====
-- What a call returns: a value, or the error of a call of utils::throwException (Utils.cc), one
-- constructor for each message that the modelled code throws, whatever function it names.
-- `undefined_access` is no message: it stands for an access of a std::vector outside its elements,
-- which C++ leaves undefined. No messages either are `netcdf_exception`, what the NetCDF library throws,
-- `view_type`, what make_view of Atlas throws on a field with values of another type, and
-- `vector_length`, the std::length_error of a vector that is given more elements than it can have.
use monio.Base.{ℕ, String, ◌≡◌, refl, Bool, true, false, List}

pub data Error : Type 0 where
  dimension_not_found : String → Error
  variable_not_found : String → Error
  attribute_not_found : String → Error
  attribute_not_coded : Error
  dimension_defined : String → Error
  attribute_defined : String → Error
  unmatched_attributes : Error
  container_not_found : String → Error
  datum_index : Error
  data_type_not_coded : Error
  field_levels : Error
  field_write_name : Error
  data_index : String → Error
  data_container_size : Error
  incompatible_grid : Error
  coordinate_axes : Error
  zero_fields : Error
  invalid_bool : List ℕ → Error
  date_times_missing : Error
  date_time_not_found : Error
  file_not_initialised : Error
  write_file_read : Error
  read_file_written : Error
  nc_file_missing : Error
  file_not_accessed : Error
  variable_type_not_coded : String → Error
  variable_dimension_missing : String → Error
  attribute_type_not_coded : String → Error
  file_not_opened : Error
  time_not_double : Error
  no_file_path : Error
  file_missing : String → Error
  field_configuration : Error
  netcdf_failure : Error
  netcdf_exception : Error
  undefined_access : Error
  view_type : Error
  vector_length : Error

-- The errors of Metadata.cc and Variable.cc, which call closeFiles before they throw.
unfoldable pub closes_files : Error → Bool
closes_files (dimension_not_found name) = true
closes_files (variable_not_found name) = true
closes_files (attribute_not_found name) = true
closes_files attribute_not_coded = true
closes_files (dimension_defined name) = true
closes_files (attribute_defined name) = true
closes_files unmatched_attributes = true
closes_files _ = false

pub data Result {ℓ} (T : Type ℓ) : Type ℓ where
  err : Error → Result T
  ok : T → Result T

-- A guard that throws where the test holds.
abbrev pub throw_if : Bool → Error → Result (Unit {0})
throw_if true e = err e
throw_if false e = ok tt

infixl 5 ◌>>=◌ ◌>>◌
abbrev pub ◌>>=◌ {ℓ κ} : {S : Type ℓ} {T : Type κ} → Result S → (S → Result T) → Result T
err e >>= next = err e
ok s >>= next = next s

abbrev pub ◌>>◌ {ℓ κ} : {S : Type ℓ} {T : Type κ} → Result S → Result T → Result T
first >> second = first >>= λ _. second

pub >>=-eq-ok {ℓ κ} :
    {S : Type ℓ} {T : Type κ} (r : Result S) (next : S → Result T) {t : T}
    → (r >>= next) ≡ ok t
    → (s : S) × (r ≡ ok s) × (next s ≡ ok t)
>>=-eq-ok (err e) next h = cc
>>=-eq-ok (ok s) next h = (s, refl, h)

pub >>=-cong {ℓ κ} :
    {S : Type ℓ} {T : Type κ} (r : Result S) (f g : S → Result T)
    → ((s : S) → f s ≡ g s)
    → (r >>= f) ≡ (r >>= g)
>>=-cong (err e) f g same = refl
>>=-cong (ok s) f g same = same s
