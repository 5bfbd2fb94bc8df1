-- ===== src/BlockStream/Items.antt =====
-- Finished output items: tool calls and results, messages, and what a provider ran itself.
use mathlib.Core.List.{map}
use omnigent_go_sdk.Prelude.{
  ℕ, zero, suc, Bool, false, ◌||◌, [], ◌∷◌, ◌++◌, Option, none, some, leb, ◌==◌, if◌then◌else◌,
  is_empty, length,
}
use omnigent_go_sdk.Prelude.Text.{Text, codes, same}
use omnigent_go_sdk.Wire.{
  Value, str, obj, Items, nil, cons, Fields, end, field, field?, as_object, as_items, item_string,
}

-- What the fold calls of packages encoding/json and fmt. `unmarshal` is none where the text is
-- not an object, and `marshal` is none on an error.
pub record Codec : Type 0 where
  pub unmarshal : Text → Option Fields
  pub marshal : Fields → Option Text
  pub sprint : Value → Text
  pub sprint_map : Fields → Text

has_slash : Text → Bool
has_slash [] = false
has_slash (r ∷ s) = r == 47 || has_slash s

-- text[slash + 1:] for the last slash, or the whole text where there is none.
unfoldable pub base_name : Text → Text
unfolding has_slash
base_name [] = []
base_name (r ∷ s) = if has_slash (r ∷ s) then (if has_slash s then base_name s else s) else r ∷ s

unfoldable pub take : ℕ → Text → Text
take zero s = []
take (suc n) [] = []
take (suc n) (r ∷ s) = r ∷ take n s

-- truncateRunes; 0x2026 is the ellipsis.
unfoldable pub truncate_runes : Text → ℕ → Text
unfolding take
truncate_runes text max = if leb (length text) max then text else take max text ++ 0x2026 ∷ []

abbrev pub max_args_summary_runes : ℕ
max_args_summary_runes = 80

-- briefArgKeys
unfoldable pub brief_arg_key : Text → Option Text
brief_arg_key name =
    if same name (codes "Read") || same name (codes "Write") || same name (codes "Edit")
    then some (codes "file_path")
    else if same name (codes "Bash")
    then some (codes "command")
    else if same name (codes "Glob") || same name (codes "Grep")
    then some (codes "pattern")
    else if same name (codes "web_search")
    then some (codes "query")
    else none

unfoldable pub has_field : Fields → Text → Bool
has_field end key = false
has_field (field k v rest) key = same k key || has_field rest key

-- The value of a listed key, as one line.
unfoldable pub brief_value : Text → Text → Text
unfolding base_name truncate_runes
brief_value key text =
    if same key (codes "file_path")
    then truncate_runes (base_name text) max_args_summary_runes
    else truncate_runes text max_args_summary_runes

-- The whole argument set, as one line.
unfoldable pub brief_all : Codec → Fields → Text
unfolding truncate_runes
brief_all codec arguments = elim (codec.marshal arguments) [
  | some encoded ↦ truncate_runes encoded max_args_summary_runes
  | none ↦ truncate_runes (codec.sprint_map arguments) max_args_summary_runes
]

unfoldable pub format_tool_args_brief : Codec → Text → Option Fields → Text
unfolding brief_arg_key has_field brief_value brief_all
format_tool_args_brief codec name none = []
format_tool_args_brief codec name (some end) = []
format_tool_args_brief codec name (some (field k v rest)) =
    let arguments = field k v rest in
    elim (brief_arg_key name) [
      | none ↦ brief_all codec arguments
      | some key ↦
          if has_field arguments key
          then brief_value key (codec.sprint (field? arguments key))
          else brief_all codec arguments
    ]

unfoldable pub item_arguments_of : Codec → Value → Option Fields
item_arguments_of codec (obj fs) = some fs
item_arguments_of codec (str raw) = if is_empty raw then none else codec.unmarshal raw
item_arguments_of codec _ = none

unfoldable pub item_arguments : Codec → Fields → Option Fields
unfolding item_arguments_of
item_arguments codec item = item_arguments_of codec (field? item (codes "arguments"))

unfoldable pub part_text : Value → Text
part_text (obj block) =
    if same (item_string block (codes "type")) (codes "output_text")
    then item_string block (codes "text")
    else []
part_text _ = []

unfoldable pub parts_text : Items → Text
unfolding part_text
parts_text nil = []
parts_text (cons part rest) = part_text part ++ parts_text rest

unfoldable pub output_text_from_content : Fields → Text
unfolding parts_text
output_text_from_content item = parts_text (as_items (field? item (codes "content")))

-- action, or the nil map
abbrev object_or_empty : Option Fields → Fields
object_or_empty none = end
object_or_empty (some fs) = fs

unfoldable pub format_native_label : Text → Fields → Text
unfolding truncate_runes
format_native_label tool_type data' =
    let action = object_or_empty (as_object (field? data' (codes "action"))) in
    let kind = item_string action (codes "type") in
    let name = item_string data' (codes "name") in
    if same tool_type (codes "web_search_call")
    then (if same kind (codes "search")
        then codes "web search: "
          ++ truncate_runes (item_string action (codes "query")) max_args_summary_runes
        else if same kind (codes "open_page")
        then codes "web open: "
          ++ truncate_runes (item_string action (codes "url")) max_args_summary_runes
        else codes "web search")
    else if same tool_type (codes "mcp_call")
    then (if is_empty name then codes "mcp call" else codes "mcp: " ++ name)
    else map (λ r. if r == 95 then 32 else r) tool_type
