-- ===== src/Services/SymbolMapper.antt =====
-- app/services/symbol_mapper.py: the mapping is a dictionary of texts, in insertion order.
use mt5_execution_bridge.Prelude.{String, str_eq, Option, none, some, List, [], ◌∷◌, if◌then◌else◌}

abbrev pub SymbolMapper : Type 0
SymbolMapper = List (String × String)

-- `self._mapping.get(symbol_raw)`
unfoldable pub resolve : String → SymbolMapper → Option String
resolve k [] = none
resolve k ((j, v) ∷ m) = let rest = resolve k m in if str_eq j k then some v else rest
