-- ===== src/Cli/Table.antt =====
-- internal/cli/helpers.go: padRight and printTable. `len` counts bytes.
pub mod Laws
use agent_inbox_question.Base.{
  ℕ, zero, suc, ◌-◌, String, ◌<>◌, List, [], ◌∷◌, map, length, if◌then◌else◌, ltb, leb,
}
use agent_inbox_question.Base.Text.{bytes}

abbrev pub byte_length : String → ℕ
byte_length s = length (bytes s)

-- `strings.Repeat`.
unfoldable pub repeat : String → ℕ → String
repeat s zero = ""
repeat s (suc n) = s <> repeat s n

unfoldable pub pad_right : String → ℕ → String
pad_right s width = if leb width (byte_length s) then s else s <> repeat " " (width - byte_length s)

-- The widths of the columns, widened by a row; a column past the headers has none.
unfoldable pub widen : List ℕ → List String → List ℕ
widen [] cols = []
widen (w ∷ ws) [] = w ∷ ws
widen (w ∷ ws) (c ∷ cs) = (if ltb w (byte_length c) then byte_length c else w) ∷ widen ws cs

unfoldable pub widen_all : List ℕ → List (List String) → List ℕ
widen_all ws [] = ws
widen_all ws (r ∷ rs) = widen_all (widen ws r) rs

abbrev pub table_widths : List String → List (List String) → List ℕ
table_widths headers rows = widen_all (map byte_length headers) rows

unfoldable pub cells : List ℕ → List String → List String
cells ws [] = []
cells [] (c ∷ cs) = c ∷ cells [] cs
cells (w ∷ ws) (c ∷ cs) = pad_right c w ∷ cells ws cs

-- Two spaces stand between columns.
unfoldable pub spaced : List String → String
spaced [] = ""
spaced (c ∷ []) = c
spaced (c ∷ d ∷ cs) = c <> ("  " <> spaced (d ∷ cs))

abbrev pub table_line : List ℕ → List String → String
table_line ws cols = spaced (cells ws cols)

-- The lines that printTable prints: the headers, the rule and the rows.
unfoldable pub table_lines : List String → List (List String) → List String
table_lines headers rows =
    let ws = table_widths headers rows in
    table_line ws headers ∷ spaced (map (repeat "-") ws) ∷ map (table_line ws) rows
