-- ===== src/Monio/DateTimes.antt =====
-- src/monio/Monio.cc: createDateTimes on a file that holds its times.
use monio.Base.{
  ℕ, suc, String, ◌≡◌, refl, sym, List, [], ◌∷◌, ◌++◌, some, inl, inr, arith, codes, length,
  get_elem?, get_elem?-eq-none, map, nat_eq,
}
use monio.Result.{ok}
use monio.Values.{Double, round_to_uint64}
use monio.Utils.Words.{Free, str_to_words_pair}
use monio.Variable.{Variable, get_str_attr, get_total_size}
use monio.Heap.{Heap, Pointer, deref}
use monio.Metadata.{get_variable}
use monio.Container.{Container, doubles, get_datum}
use monio.Container.Datum.{get_datum-cases}
use monio.Data.{get_container}
use monio.FileData.{FileData, set_date_times}
use monio.Monio.State.{Monio, Clock}
use monio.Monio.Initialise.{
  joined, convert_to_atlas_date_time_str, as_doubles, times_from, create_date_times,
}

-- The values from an index on are whole numbers of seconds after rounding.
abbrev pub Rounds : List Double → ℕ → List ℕ → Type 0
Rounds values index [] = Unit {0}
Rounds values index (n ∷ seconds) =
    ((d : Double) × (get_elem? values index ≡ some d) × (round_to_uint64 d ≡ ok n))
    × Rounds values (suc index) seconds

-- A date and a time with a space between become the text that util::DateTime reads.
convert_to_atlas_date_time_str-eq :
    (date time : List ℕ) (c : ℕ)
    → Free 32 date
    → Free 32 (c ∷ time)
    → convert_to_atlas_date_time_str (date ++ 32 ∷ c ∷ time)
      ≡ ok (date ++ b'T' ∷ c ∷ time ++ b'Z' ∷ [])
unfolding convert_to_atlas_date_time_str joined
convert_to_atlas_date_time_str-eq date time c f g = rw (str_to_words_pair 32 c date time f g)

get_datum_of_elem :
    (times : Container Double) (index : ℕ) (d : Double)
    → get_elem? times.data_vector index ≡ some d
    → get_datum times index ≡ ok d
get_datum_of_elem times index d here = elim (get_datum-cases times index) [
  | inl (below, (v, there, read)) ↦ let same : some v ≡ some d = cc in cc
  | inr (inl (at_end, undefined)) ↦
      let gone = get_elem?-eq-none times.data_vector index (omega arith) in absurd cc
  | inr (inr (above, refused)) ↦
      let gone = get_elem?-eq-none times.data_vector index (omega arith) in absurd cc
]

module _ {DateTime : Type 0} (clock : Clock DateTime) where
  times_from-eq :
      (origin : DateTime) (times : Container Double) (index : ℕ) (seconds : List ℕ)
      → Rounds times.data_vector index seconds
      → times_from clock origin times index (length seconds)
        ≡ ok (map (clock.add_seconds origin) seconds)
  unfolding times_from
  times_from-eq origin times index [] rounds = refl
  times_from-eq origin times index (n ∷ seconds) ((d, here, rounded), rounds) = rw (
    get_datum_of_elem times index d here,
    rounded,
    times_from-eq origin times (suc index) seconds rounds,
  )

  -- A file that has no date-times yet and whose variable of the time, its container and its origin
  -- are there: the container holds doubles that round to `seconds`, as many as the variable has
  -- values, and the origin is a date, a space and a time, which parse.
  pub record HoldsTimes (var_name origin_name : String) (h : Heap) (file : FileData DateTime)
      (origin : DateTime) (seconds : List ℕ) : Type 0 where
    pub pointer : Pointer
    pub time_var : Variable
    pub times : Container Double
    pub origin_text : String
    pub date : List ℕ
    pub first : ℕ
    pub time : List ℕ
    pub none_yet : file.date_times ≡ []
    pub has_variable : get_variable file.metadata var_name ≡ ok pointer
    pub has_object : deref h pointer ≡ ok time_var
    pub has_container : get_container file.data_held var_name ≡ ok (doubles times)
    pub has_origin : get_str_attr time_var origin_name ≡ ok origin_text
    pub two_words : codes origin_text ≡ date ++ 32 ∷ first ∷ time
    pub date_free : Free 32 date
    pub time_free : Free 32 (first ∷ time)
    pub parses : clock.parse (date ++ b'T' ∷ first ∷ time ++ b'Z' ∷ []) ≡ ok origin
    pub sized : length seconds ≡ get_total_size time_var
    pub rounds : Rounds times.data_vector 0 seconds

  -- On a file that holds its times createDateTimes returns, with the state as it was, and sets the
  -- date-times to the origin and each of the rounded times, in their order; nothing else of the file
  -- changes.
  pub create_date_times-eq :
      {File : Type 0} (var_name origin_name : String) (h : Heap) (file : FileData DateTime)
      (origin : DateTime) (seconds : List ℕ) (s : Monio File DateTime)
      → HoldsTimes var_name origin_name h file origin seconds
      → create_date_times clock var_name origin_name h file s
        ≡ (ok (record file { date_times = map (clock.add_seconds origin) seconds }), s)
  unfolding create_date_times as_doubles set_date_times
  create_date_times-eq var_name origin_name h file origin seconds s holds =
      let text =
        convert_to_atlas_date_time_str-eq holds.date holds.time holds.first holds.date_free
          holds.time_free in
      let read = times_from-eq origin holds.times 0 seconds holds.rounds in
      rw (
        holds.none_yet,
        holds.has_variable,
        holds.has_object,
        holds.has_container,
        holds.has_origin,
        holds.two_words,
        text,
        holds.parses,
        sym holds.sized,
        read,
      )
