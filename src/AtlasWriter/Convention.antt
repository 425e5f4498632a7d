-- ===== src/AtlasWriter/Convention.antt =====
-- The naming convention that AtlasWriter.cc writes and Metadata.cc reads.
use monio.Base.{
  ◌≡◌, ◌≢◌, ◌∙◌, Bool, true, false, none, pos, if◌then◌else◌, Bool-cases, inl, inr, string_eq,
}
use monio.Result.{ok}
use monio.Constants.{variable_convention_name, produced_by_name, produced_by_string}
use monio.Map.{lookup, contains}
use monio.Utils.{find_pos_in_vector}
use monio.Variable.{attribute_string}
use monio.Metadata.{Metadata, get_variable_convention, convention_from, add_global_attr}
use monio.Metadata.Additions.{contains-none}
use monio.Metadata.Convention.{convention_from-insert, convention_from-insert_other}
use monio.AtlasWriter.Metadata.{add_global_attributes}

produced_by_other : produced_by_name ≢ variable_convention_name
produced_by_other p = cc

convention_from-add_produced_by :
    (m : Metadata)
    → convention_from
        (pos 0)
        (add_global_attr m produced_by_name
          (attribute_string produced_by_name produced_by_string)).global_attrs
      ≡ convention_from (pos 0) m.global_attrs
unfolding add_global_attr
convention_from-add_produced_by m = elim (Bool-cases (contains produced_by_name m.global_attrs)) [
  | inl there ↦ rw there
  | inr new ↦ rw new (
      convention_from-insert_other (pos 0) produced_by_name
        (attribute_string produced_by_name produced_by_string) m.global_attrs produced_by_other)
]

-- Metadata that name no convention yet are read as LFRic's after addGlobalAttributes for LFRic, and
-- as JEDI's after addGlobalAttributes for JEDI.
pub get_variable_convention-add_global_attributes :
    (m : Metadata) (is_lfric_convention : Bool)
    → lookup variable_convention_name m.global_attrs ≡ none
    → get_variable_convention (add_global_attributes m is_lfric_convention)
      ≡ ok (if is_lfric_convention then pos 0 else pos 1)
unfolding get_variable_convention add_global_attributes add_global_attr find_pos_in_vector
get_variable_convention-add_global_attributes m true h =
    convention_from-add_produced_by (
      add_global_attr m variable_convention_name
        (attribute_string variable_convention_name "LFRic"))
    ∙ rw (contains-none variable_convention_name m.global_attrs h)
        (convention_from-insert (pos 0) "LFRic" m.global_attrs h)
get_variable_convention-add_global_attributes m false h =
    convention_from-add_produced_by (
      add_global_attr m variable_convention_name (attribute_string variable_convention_name "JEDI"))
    ∙ rw (contains-none variable_convention_name m.global_attrs h)
        (convention_from-insert (pos 0) "JEDI" m.global_attrs h)
