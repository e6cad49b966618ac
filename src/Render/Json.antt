-- ===== src/Render/Json.antt =====
-- `json.MarshalIndent(v, "", "  ")` on objects whose fields are listed in the order of their keys.
use Prim.Native.String.{[], ◌∷◌}
use hamara_tunnel.Prelude.{
  ℕ, zero, suc, ◌/◌, ◌%◌, Char, code, String, ◌<>◌, Bool, true, false, ◌||◌, ltb, if◌then◌else◌,
}
use hamara_tunnel.Prelude.Int.{ℤ}
use hamara_tunnel.Text.{is, itoa}
use hamara_tunnel.Encoding.{hex_char}

mutual
  pub data Json : Type 0 where
    str : String → Json
    num : ℤ → Json
    bool : Bool → Json
    arr : Items → Json
    obj : Fields → Json

  pub data Items : Type 0 where
    nil : Items
    item : Json → Items → Items

  pub data Fields : Type 0 where
    end : Fields
    field : String → Json → Fields → Fields

-- `\u00` and two digits
unfoldable pub short_escape : Char → String
unfolding hex_char
short_escape c = "\\u00" <> (hex_char (code c / 16) ∷ hex_char (code c % 16) ∷ [])

unfoldable pub escape_char : Char → String
unfolding short_escape
escape_char c =
    if is b'"' c
    then "\\\""
    else if is b'\\' c
    then "\\\\"
    else if is b'\n' c
    then "\\n"
    else if is b'\r' c
    then "\\r"
    else if is b'\t' c
    then "\\t"
    else if is 8 c
    then "\\b"
    else if is 12 c
    then "\\f"
    else if ltb (code c) 32 || is b'<' c || is b'>' c || is b'&' c
    then short_escape c
    else if is 0x2028 c
    then "\\u2028"
    else if is 0x2029 c
    then "\\u2029"
    else c ∷ []

unfoldable pub escape_json : String → String
unfolding escape_char
escape_json [] = ""
escape_json (c ∷ s) = escape_char c <> escape_json s

unfoldable pub json_string : String → String
unfolding escape_json
json_string s = "\"" <> (escape_json s <> "\"")

unfoldable pub blanks : ℕ → String
blanks zero = ""
blanks (suc n) = "  " <> blanks n

-- A new line at a depth.
unfoldable pub new_line : ℕ → String
unfolding blanks
new_line n = "\n" <> blanks n

unfoldable mutual
  unfolding json_string new_line

  pub show : ℕ → Json → String
  show n (str s) = json_string s
  show n (num z) = itoa z
  show n (bool true) = "true"
  show n (bool false) = "false"
  show n (arr nil) = "[]"
  show n (arr (item v vs)) =
      "["
      <> (new_line (suc n) <> (show (suc n) v <> (show_items (suc n) vs <> (new_line n <> "]"))))
  show n (obj end) = "{}"
  show n (obj (field k v fs)) =
      "{"
      <> (new_line (suc n)
          <> (json_string k
              <> (": " <> (show (suc n) v <> (show_fields (suc n) fs <> (new_line n <> "}"))))))

  -- The items behind the first one.
  pub show_items : ℕ → Items → String
  show_items n nil = ""
  show_items n (item v vs) = "," <> (new_line n <> (show n v <> show_items n vs))

  pub show_fields : ℕ → Fields → String
  show_fields n end = ""
  show_fields n (field k v fs) =
      "," <> (new_line n <> (json_string k <> (": " <> (show n v <> show_fields n fs))))

-- `json.MarshalIndent`
unfoldable pub marshal_indent : Json → String
unfolding show
marshal_indent v = show 0 v
