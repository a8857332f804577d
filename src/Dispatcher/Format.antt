-- ===== src/Dispatcher/Format.antt =====
-- `_format_response` of src/mopidy_mpd/dispatcher.py: a result as lines.
use mopidy_mpd.Prelude.{Text, codes, List, [], ◌∷◌, ◌++◌, show_int}
use mopidy_mpd.Protocol.{
  Value, str, int, Element, dict, pair, line, Item, element, nested, Items, nil, cons, Result,
  nothing, single, many,
}

show_value : Value → Text
unfolding show_int
show_value (str t) = t
show_value (int n) = show_int n

-- `f"{key}: {value}"`
pub key_value : Text → Value → Text
unfolding show_value
key_value key v = key ++ (codes ": " ++ show_value v)

dict_lines : List (Text × Value) → List Text
unfolding key_value
dict_lines [] = []
dict_lines ((key, v) ∷ rest) = key_value key v ∷ dict_lines rest

-- `_format_lines`
pub format_lines : Element → List Text
unfolding dict_lines
format_lines (dict entries) = dict_lines entries
format_lines (pair key v) = key_value key v ∷ []
format_lines (line t) = t ∷ []

-- `_flatten`
unfoldable mutual
  pub flatten_item : Item → List Element
  flatten_item (element e) = e ∷ []
  flatten_item (nested es) = flatten es

  pub flatten : Items → List Element
  flatten nil = []
  flatten (cons i is) = flatten_item i ++ flatten is

-- `_listify_result`
listify_result : Result → List Element
unfolding flatten
listify_result nothing = []
listify_result (single e) = e ∷ []
listify_result (many es) = flatten es

format_all : List Element → List Text
unfolding format_lines
format_all [] = []
format_all (e ∷ es) = format_lines e ++ format_all es

unfoldable pub format_response : Result → List Text
unfolding listify_result format_all
format_response result = format_all (listify_result result)
