-- ===== src/Tool/Examples.antt =====
-- A registry of two tools.
use omnigent_go_sdk.Prelude.{◌≡◌, Option, some, [], ◌∷◌}
use omnigent_go_sdk.Prelude.Text.{Text}
use omnigent_go_sdk.Prelude.Maps.{member}
use omnigent_go_sdk.Tool.{answered, ToolRegistry, names, lookup_tool}
use omnigent_go_sdk.Tool.Listed.{Sorted, found, listed_names}

abbrev registry : Option ToolRegistry
registry = some (record {
  tools = (4 ∷ [], λ _ info. answered info.call_id) ∷ (2 ∷ 3 ∷ [], λ _ _. answered []) ∷ [];
  schemas = [];
})

listed_names_example :
    Sorted (names registry)
    × ((n : Text) → member n (names registry) ≡ found (lookup_tool registry n))
listed_names_example = listed_names registry
