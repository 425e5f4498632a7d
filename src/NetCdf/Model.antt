-- ===== src/NetCdf/Model.antt =====
-- Files in the memory: a type of files that meets what NetCdf states of the library.
use monio.Base.{
  ℕ, String, ◌≡◌, ◌≢◌, refl, sym, ◌∙◌, ap, List, [], Option, none, some, ℤ, ◌==◌, string_eq,
  ==_self, ==_ne, if◌then◌else◌, Bool-cases, inl, inr,
}
use monio.Result.{Result, ok, err, netcdf_exception}
use monio.Values.{Double, Float}
use monio.Map.{Map, lookup, insert, erase}
use monio.Map.Laws.{lookup-insert, lookup-erase}
use monio.Map.Sorted.{IsSorted, insert-IsSorted, erase-IsSorted}
use monio.Container.{DataContainer, doubles, floats, ints}
use monio.NetCdf.{
  NcLibrary, NcVar, NcAtt, NcType, nc_double, nc_float, nc_int, nc_other, TypeName, double_name,
  float_name, int_name, resolved, DefinesNames, KeepsValues, put_values, Gives,
}

pub record Contents : Type 0 where
  pub dims : Map ℕ
  pub dims_sorted : IsSorted dims
  pub vars : Map NcVar
  pub vars_sorted : IsSorted vars
  pub atts : Map NcAtt
  pub atts_sorted : IsSorted atts
  pub held : String → Option DataContainer

abbrev pub no_contents : Contents
no_contents = record {
  dims = [];
  dims_sorted = tt;
  vars = [];
  vars_sorted = tt;
  atts = [];
  atts_sorted = tt;
  held = λ k. none;
}

abbrev type_of : String → NcType
type_of name =
    if name == "double"
    then nc_double
    else if name == "float"
    then nc_float
    else if name == "int"
    then nc_int
    else nc_other name

abbrev put_at : {V : Type 0} → String → V → Map V → Map V
put_at k v m = insert k v (erase k m)

pub lookup-put_at :
    {V : Type 0} (k j : String) (v : V) (m : Map V)
    → lookup j (put_at k v m) ≡ (if k == j then some v else lookup j m)
lookup-put_at k j v m =
    let gone : lookup k (erase k m) ≡ none = lookup-erase k k m ∙ (rw (==_self k)) in
    lookup-insert k j v (erase k m) gone ∙ elim (Bool-cases (k == j)) [
      | inl here ↦ rw here
      | inr past ↦ rw past (lookup-erase k j m ∙ (rw past))
    ]

pub put_at-IsSorted :
    {V : Type 0} (k : String) (v : V) (m : Map V) → IsSorted m → IsSorted (put_at k v m)
put_at-IsSorted k v m s = insert-IsSorted k v (erase k m) (erase-IsSorted k m s)

abbrev hold : Contents → String → DataContainer → Contents
hold n name c = record n { held = λ k. if name == k then some c else n.held k }

abbrev pub doubles_of : Option DataContainer → Result (List Double)
doubles_of (some (doubles c)) = ok c.data_vector
doubles_of _ = err netcdf_exception

abbrev pub floats_of : Option DataContainer → Result (List Float)
floats_of (some (floats c)) = ok c.data_vector
floats_of _ = err netcdf_exception

abbrev pub ints_of : Option DataContainer → Result (List ℤ)
ints_of (some (ints c)) = ok c.data_vector
ints_of _ = err netcdf_exception

abbrev pub put_var_att_in : Contents → String → String → NcAtt → Option NcVar → Result Contents
put_var_att_in n var name a none = err netcdf_exception
put_var_att_in n var name a (some v) = ok (record n {
  vars = put_at var (record v { atts = put_at name a v.atts }) n.vars;
  vars_sorted = put_at-IsSorted var (record v { atts = put_at name a v.atts }) n.vars n.vars_sorted;
})

abbrev pub memory : NcLibrary Contents
memory = record {
  open_nc = λ path mode. ok no_contents;
  dims = λ n. n.dims;
  vars = λ n. n.vars;
  atts = λ n. n.atts;
  add_dim = λ n name size. ok (record n {
    dims = put_at name size n.dims;
    dims_sorted = put_at-IsSorted name size n.dims n.dims_sorted;
  });
  add_var = λ n name type_name names. ok (record n {
    vars =
        put_at name
          (record {
            name = name;
            type = type_of type_name;
            dims = resolved n.dims names;
            atts = [];
          })
          n.vars;
    vars_sorted =
        put_at-IsSorted name
          (record {
            name = name;
            type = type_of type_name;
            dims = resolved n.dims names;
            atts = [];
          })
          n.vars n.vars_sorted;
  });
  put_var_att = λ n var name a. put_var_att_in n var name a (lookup var n.vars);
  put_att = λ n name a. ok (record n {
    atts = put_at name a n.atts;
    atts_sorted = put_at-IsSorted name a n.atts n.atts_sorted;
  });
  doubles = record {
    get = λ n name. doubles_of (n.held name);
    get_at = λ n name start counts. doubles_of (n.held name);
    put =
        λ n name values. ok (hold n name (doubles (record { name = name; data_vector = values })));
  };
  floats = record {
    get = λ n name. floats_of (n.held name);
    get_at = λ n name start counts. floats_of (n.held name);
    put = λ n name values. ok (hold n name (floats (record { name = name; data_vector = values })));
  };
  ints = record {
    get = λ n name. ints_of (n.held name);
    get_at = λ n name start counts. ints_of (n.held name);
    put = λ n name values. ok (hold n name (ints (record { name = name; data_vector = values })));
  };
}

type_of-TypeName : (t : NcType) (name : String) → TypeName t name → type_of name ≡ t
type_of-TypeName t name double_name = refl
type_of-TypeName t name float_name = refl
type_of-TypeName t name int_name = refl

pub add_var-lookup :
    (n : Contents) (name : String) (t : NcType) (type_name : String) (dims : List (String × ℕ))
    → TypeName t type_name
    → (k : String)
    → lookup k (
        put_at name
          (record { name = name; type = type_of type_name; dims = dims; atts = [] })
          n.vars)
      ≡ (if name == k
          then some (record { name = name; type = t; dims = dims; atts = [] })
          else lookup k n.vars)
add_var-lookup n name t type_name dims h k =
    rw (type_of-TypeName t type_name h) (lookup-put_at name k _ n.vars)

pub put_var_att-lookup :
    (n : Contents) (var name : String) (v : NcVar) (a : NcAtt)
    → lookup var n.vars ≡ some v
    → memory.put_var_att n var name a ≡ put_var_att_in n var name a (some v)
put_var_att-lookup n var name v a h = ap (put_var_att_in n var name a) h

abbrev pub memory_defines : DefinesNames memory
memory_defines = record {
  IsName = λ name. Unit {0};
  dims-IsSorted = λ n. n.dims_sorted;
  vars-IsSorted = λ n. n.vars_sorted;
  atts-IsSorted = λ n. n.atts_sorted;
  add_dim-defines =
      λ n name size h positive new. (_, refl, (λ k. lookup-put_at name k size n.dims), refl, refl);
  add_var-defines = λ n name t type_name names h typed known new.
      (_, refl, refl, add_var-lookup n name t type_name (resolved n.dims names) typed, refl);
  put_var_att-defines = λ n var name v a h found new s. (
    _,
    record v { atts = put_at name a v.atts },
    put_var_att-lookup n var name v a found,
    refl,
    (λ k. lookup-put_at var k (record v { atts = put_at name a v.atts }) n.vars),
    refl,
    refl,
    refl,
    refl,
    put_at-IsSorted name a v.atts s,
    (λ k. lookup-put_at name k a v.atts),
  );
  put_att-defines = λ n name a h new. (_, refl, refl, refl, (λ k. lookup-put_at name k a n.atts));
}

Gives-hold :
    (n : Contents) (name k : String) (c d : DataContainer)
    → k ≢ name
    → Gives memory n k d
    → Gives memory (hold n name c) k d
Gives-hold n name k c (doubles d) ne h = rw (==_ne name k (λ p. ne (sym p))) h
Gives-hold n name k c (floats d) ne h = rw (==_ne name k (λ p. ne (sym p))) h
Gives-hold n name k c (ints d) ne h = rw (==_ne name k (λ p. ne (sym p))) h

pub put_values-hold :
    (n : Contents) (name : String) (c : DataContainer)
    → (n' : Contents) × (put_values memory n name c ≡ ok n')
      × Gives memory n' name c
      × Unit {0}
      × ((k : String) (d : DataContainer) → k ≢ name → Gives memory n k d → Gives memory n' k d)
unfolding put_values
put_values-hold n name (doubles c) =
    (_, refl, rw (==_self name), tt, λ k d. Gives-hold n name k _ d)
put_values-hold n name (floats c) = (_, refl, rw (==_self name), tt, λ k d. Gives-hold n name k _ d)
put_values-hold n name (ints c) = (_, refl, rw (==_self name), tt, λ k d. Gives-hold n name k _ d)

abbrev pub memory_keeps : KeepsValues memory
memory_keeps = record {
  Takes = λ n name c. Unit {0};
  put_values-gives = λ n name c h. (
    (put_values-hold n name c).0,
    (put_values-hold n name c).1,
    (put_values-hold n name c).2,
    (λ k d t. t),
    (put_values-hold n name c).4,
  );
}
