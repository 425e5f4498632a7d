-- ===== src/Examples/Times.antt =====
-- A file that holds two times.
use monio.Base.{
  Bool, true, false, if◌then◌else◌, ◌==◌, inl, inr, Bool-cases, ℕ, String, ◌≡◌, refl, List, [], ◌∷◌,
  none, codes, ◌+◌, ◌*◌, ◌^◌, arith, nat_eq, string_eq, pos,
}
use monio.Result.{ok}
use monio.Constants.{DataType}
use monio.Values.{Double, round_to_uint64}
use monio.Variable.{Variable, attribute_string, get_str_attr, get_total_size}
use monio.Utils.Words.{Free}
use monio.Map.{lookup}
use monio.Heap.{deref}
use monio.Metadata.{get_variable}
use monio.Data.{get_container}
use monio.Container.{Container, doubles}
use monio.FileData.{FileData}
use monio.Monio.State.{Monio, Clock}
use monio.Monio.Initialise.{create_date_times}
use monio.Monio.DateTimes.{HoldsTimes, create_date_times-eq}

-- Date-times as their text and the seconds after it.
abbrev texts : Clock (List ℕ × ℕ)
texts = record { parse = λ text. ok (text, 0); add_seconds = λ (t : List ℕ × ℕ) n. (t.0, t.1 + n) }

-- 3600 and 7200
abbrev hour : Double
hour = record { bits = 1034 * 2 ^ 52 + 1552 * 2 ^ 41 }

abbrev two_hours : Double
two_hours = record { bits = 1035 * 2 ^ 52 + 1552 * 2 ^ 41 }

abbrev time_instant : Variable
time_instant = record {
  name = "time_instant";
  type = DataType.double;
  dimensions = ("time_counter", 2) ∷ [];
  attributes = ("time_origin", attribute_string "time_origin" "2021-Apr-01 00:00:00") ∷ [];
}

abbrev held : Container Double
held = record { name = "time_instant"; data_vector = hour ∷ two_hours ∷ [] }

abbrev timed_file : FileData (List ℕ × ℕ)
timed_file = record {
  metadata = record {
    dimensions = ("time_counter", pos 2) ∷ [];
    global_attrs = [];
    variables = ("time_instant", 0) ∷ [];
  };
  data_held = record { data_containers = ("time_instant", doubles held) ∷ [] };
  lfric_atlas_map = [];
  date_times = [];
}

abbrev closed_files : Monio String (List ℕ × ℕ)
closed_files = record {
  reader = record { file = none };
  writer = record { file = none };
  files_data = [];
  dim_count = 0;
  heap = time_instant ∷ [];
}

abbrev origin : List ℕ × ℕ
origin = (codes "2021-Apr-01T00:00:00Z", 0)

hour_seconds : round_to_uint64 hour ≡ ok 3600
unfolding round_to_uint64
hour_seconds = refl

two_hours_seconds : round_to_uint64 two_hours ≡ ok 7200
unfolding round_to_uint64
two_hours_seconds = refl

abbrev no_space : List ℕ → Bool
no_space [] = true
no_space (c ∷ cs) = if c == 32 then false else no_space cs

no_space-Free : (cs : List ℕ) → no_space cs ≡ true → Free 32 cs
no_space-Free [] h = tt
no_space-Free (c ∷ cs) h = elim (Bool-cases (c == 32)) [
  | inl hit ↦ let none_there : false ≡ true = rw hit at h in absurd cc
  | inr miss ↦ ((λ p. ground arith), no_space-Free cs (rw miss at h))
]

timed_file-HoldsTimes :
    HoldsTimes texts "time_instant" "time_origin"
      (time_instant ∷ [])
      timed_file
      origin
      (3600 ∷ 7200 ∷ [])
unfolding get_variable lookup deref get_container get_str_attr get_total_size
timed_file-HoldsTimes = record {
  pointer = 0;
  time_var = time_instant;
  times = held;
  origin_text = "2021-Apr-01 00:00:00";
  date = codes "2021-Apr-01";
  first = b'0';
  time = codes "0:00:00";
  none_yet = refl;
  has_variable = refl;
  has_object = refl;
  has_container = refl;
  has_origin = refl;
  two_words = refl;
  date_free = no_space-Free (codes "2021-Apr-01") refl;
  time_free = no_space-Free (codes "00:00:00") refl;
  parses = refl;
  sized = refl;
  rounds = ((hour, refl, hour_seconds), ((two_hours, refl, two_hours_seconds), tt));
}

create_date_times-eq_example :
    create_date_times texts "time_instant" "time_origin" (time_instant ∷ []) timed_file closed_files
    ≡ (
      ok (record timed_file { date_times = (origin.0, 3600) ∷ (origin.0, 7200) ∷ [] }),
      closed_files,
    )
create_date_times-eq_example =
    create_date_times-eq texts "time_instant" "time_origin" (time_instant ∷ []) timed_file origin
      (3600 ∷ 7200 ∷ []) closed_files timed_file-HoldsTimes
