-- ===== src/File/Throws/Memory.antt =====
-- The library in memory throws as the NetCDF library does.
use monio.Base.{String, refl, Option, none, some}
use monio.Result.{netcdf_exception}
use monio.Map.{lookup}
use monio.Exec.Fails.{Fails, Fails-ok, Fails-err}
use monio.Container.{DataContainer, doubles, floats, ints}
use monio.NetCdf.{NcVar, NcAtt}
use monio.NetCdf.Model.{memory, Contents, doubles_of, floats_of, ints_of, put_var_att_in}
use monio.File.Throws.{IsOfLibrary, ThrowsNc}

doubles_of-Fails : (c : Option DataContainer) → Fails IsOfLibrary (doubles_of c)
doubles_of-Fails none = Fails-err netcdf_exception refl
doubles_of-Fails (some (doubles c)) = Fails-ok c.data_vector
doubles_of-Fails (some (floats c)) = Fails-err netcdf_exception refl
doubles_of-Fails (some (ints c)) = Fails-err netcdf_exception refl

floats_of-Fails : (c : Option DataContainer) → Fails IsOfLibrary (floats_of c)
floats_of-Fails none = Fails-err netcdf_exception refl
floats_of-Fails (some (doubles c)) = Fails-err netcdf_exception refl
floats_of-Fails (some (floats c)) = Fails-ok c.data_vector
floats_of-Fails (some (ints c)) = Fails-err netcdf_exception refl

ints_of-Fails : (c : Option DataContainer) → Fails IsOfLibrary (ints_of c)
ints_of-Fails none = Fails-err netcdf_exception refl
ints_of-Fails (some (doubles c)) = Fails-err netcdf_exception refl
ints_of-Fails (some (floats c)) = Fails-err netcdf_exception refl
ints_of-Fails (some (ints c)) = Fails-ok c.data_vector

put_var_att_in-Fails :
    (n : Contents) (var name : String) (a : NcAtt) (v : Option NcVar)
    → Fails IsOfLibrary (put_var_att_in n var name a v)
put_var_att_in-Fails n var name a none = Fails-err netcdf_exception refl
put_var_att_in-Fails n var name a (some v) = Fails-ok _

pub memory_throws : ThrowsNc memory
memory_throws = record {
  on_add_dim = λ n name size. Fails-ok _;
  on_add_var = λ n name type_name names. Fails-ok _;
  on_put_var_att = λ n var name a. put_var_att_in-Fails n var name a (lookup var n.vars);
  on_put_att = λ n name a. Fails-ok _;
  on_doubles = record {
    on_get = λ n name. doubles_of-Fails (n.held name);
    on_get_at = λ n name start counts. doubles_of-Fails (n.held name);
    on_put = λ n name written. Fails-ok _;
  };
  on_floats = record {
    on_get = λ n name. floats_of-Fails (n.held name);
    on_get_at = λ n name start counts. floats_of-Fails (n.held name);
    on_put = λ n name written. Fails-ok _;
  };
  on_ints = record {
    on_get = λ n name. ints_of-Fails (n.held name);
    on_get_at = λ n name start counts. ints_of-Fails (n.held name);
    on_put = λ n name written. Fails-ok _;
  };
}
