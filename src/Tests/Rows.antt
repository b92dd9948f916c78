-- ===== src/Tests/Rows.antt =====
-- Runs of src/table_rows.c on row instances.
use agentx_subagent.Prelude.{
  Option, ℕ, List, ◌≡◌, refl, sym, true, some, [], ◌∷◌, text, length, leb, if◌then◌else◌, arith,
}
use agentx_subagent.Storage.Types.{err_inval, err_toobig}
use agentx_subagent.Storage.Codec.{got, fail}
use agentx_subagent.Rows.Instance.{
  TableInstance, table_instance_format, table_instance_parse, table_instance_compare, format_loop,
  decimal, digits, parse_loop, close_component,
}
use agentx_subagent.Rows.Instance.Format.{dotted, table_instance_format_lem}
use agentx_subagent.Rows.Instance.Parse.{parse-format}
use agentx_subagent.Rows.Oid.{
  table_instance_to_indexes, table_instance_from_indexes, from-to_indexes,
}
use agentx_subagent.Rows.Instance.Canonical.{format-parse}
use agentx_subagent.Rows.Rowset.{sort_unique, insert_row, sort_rows, unique_rows, unique_from}

parse-format_example :
    table_instance_parse (some (text "3.0.4294967295")) true ≡ got (3 ∷ 0 ∷ 4294967295 ∷ [])
unfolding table_instance_format format_loop decimal digits
parse-format_example =
    parse-format (3 ∷ 0 ∷ 4294967295 ∷ []) 15 (text "3.0.4294967295")
      (omega arith, (omega arith, (omega arith, tt))) refl

format-parse_example : table_instance_format (some (3 ∷ 10 ∷ [])) true 5 ≡ got (text "3.10")
unfolding table_instance_parse parse_loop close_component
format-parse_example = format-parse (text "3.10") (3 ∷ 10 ∷ []) 5 refl (omega arith)

table_instance_format_lem_example : table_instance_format (some (3 ∷ 10 ∷ [])) true 4 ≡ (
    if leb 4 (length (dotted (3 ∷ 10 ∷ []))) then fail err_toobig else got (dotted (3 ∷ 10 ∷ [])))
table_instance_format_lem_example =
    table_instance_format_lem (3 ∷ 10 ∷ []) 4 (omega arith) (omega arith) (omega arith)

sort_unique_test : sort_unique ((10 ∷ []) ∷ (2 ∷ []) ∷ (10 ∷ []) ∷ []) ≡ (2 ∷ []) ∷ (10 ∷ []) ∷ []
unfolding sort_unique sort_rows insert_row unique_rows unique_from table_instance_compare
sort_unique_test = refl

leading_zero_test : table_instance_parse (some (text "3.010")) true ≡ fail err_inval
unfolding table_instance_parse parse_loop close_component
leading_zero_test = refl

-- Index varbinds that hold the sub-identifiers as they are.
abbrev parse_all : List ℕ → List ℕ → Option (List ℕ)
parse_all subids template = some subids

abbrev build_all : List ℕ → Option (List ℕ)
build_all indexes = some indexes

from-to_indexes_example :
    table_instance_from_indexes parse_all build_all (some (3 ∷ 4294967295 ∷ [])) true
    ≡ some (3 ∷ 4294967295 ∷ [])
unfolding table_instance_to_indexes
from-to_indexes_example =
    from-to_indexes parse_all build_all (3 ∷ 4294967295 ∷ []) [] (3 ∷ 4294967295 ∷ [])
      (omega arith, (omega arith, tt)) (λ subids v v' short parsed. sym parsed) refl

abbrev pair : TableInstance
pair = 3 ∷ 7 ∷ []
