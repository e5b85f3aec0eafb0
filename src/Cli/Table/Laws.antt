-- ===== src/Cli/Table/Laws.antt =====
-- The lines of a table are of one width.
use mathlib.Core.List.{Memᴰ}
use mathlib.Core.List.Memᴰ
use mathlib.Core.List.Memᴰ.{head, tail}
use agent_inbox_question.Base.{
  ℕ, zero, suc, ◌+◌, ◌-◌, ◌≤◌, String, ◌<>◌, List, [], ◌∷◌, map, length, length-append, ◌≡◌, refl,
  sym, ◌∙◌, ap, arith,
}
use agent_inbox_question.Base.Text.{bytes, bytes-append}
use agent_inbox_question.Cli.Table.{
  byte_length, repeat, pad_right, widen, widen_all, table_widths, cells, spaced, table_line,
  table_lines,
}

byte_length-append : (s t : String) → byte_length (s <> t) ≡ byte_length s + byte_length t
byte_length-append s t = ap length (bytes-append s t) ∙ length-append (bytes s) (bytes t)

byte_length-repeat : (s : String) → byte_length s ≡ 1 → (n : ℕ) → byte_length (repeat s n) ≡ n
unfolding repeat bytes
byte_length-repeat s h zero = refl
byte_length-repeat s h (suc n) =
    omega (arith, h, byte_length-append s (repeat s n), byte_length-repeat s h n)

byte_length-pad_right : (s : String) (w : ℕ) → byte_length s ≤ w → byte_length (pad_right s w) ≡ w
unfolding pad_right bytes
byte_length-pad_right s w h = ground (
  arith,
  byte_length-append s (repeat " " (w - byte_length s)),
  byte_length-repeat " " refl (w - byte_length s),
)

-- Each column is as wide as its width, and there are as many.
abbrev Fits : List ℕ → List String → Type 0
Fits [] [] = Unit {0}
Fits (w ∷ ws) (c ∷ cs) = (byte_length c ≤ w) × Fits ws cs
Fits _ _ = ⊥

abbrev pub line_width : List ℕ → ℕ
line_width [] = 0
line_width (w ∷ []) = w
line_width (w ∷ v ∷ ws) = w + (2 + line_width (v ∷ ws))

byte_length-spaced :
    (c d : String) (cs : List String)
    → byte_length (spaced (c ∷ d ∷ cs)) ≡ byte_length c + (2 + byte_length (spaced (d ∷ cs)))
unfolding spaced bytes
byte_length-spaced c d cs =
    byte_length-append c ("  " <> spaced (d ∷ cs))
    ∙ ap (λ (n : ℕ). byte_length c + n) (byte_length-append "  " (spaced (d ∷ cs)))

table_line-width :
    (ws : List ℕ) (cols : List String)
    → Fits ws cols
    → byte_length (table_line ws cols) ≡ line_width ws
unfolding cells spaced bytes
table_line-width [] [] f = refl
table_line-width [] (c ∷ cs) f = elim f [ ]
table_line-width (w ∷ ws) [] f = elim f [ ]
table_line-width (w ∷ []) (c ∷ []) f = byte_length-pad_right c w f.0
table_line-width (w ∷ []) (c ∷ d ∷ cs) f = absurd f.1
table_line-width (w ∷ v ∷ ws) (c ∷ []) f = absurd f.1
table_line-width (w ∷ v ∷ ws) (c ∷ d ∷ cs) f = omega (
  arith,
  byte_length-spaced (pad_right c w) (pad_right d v) (cells ws cs),
  byte_length-pad_right c w f.0,
  table_line-width (v ∷ ws) (d ∷ cs) f.1,
)

rule_width : (ws : List ℕ) → byte_length (spaced (map (repeat "-") ws)) ≡ line_width ws
unfolding spaced bytes
rule_width [] = refl
rule_width (w ∷ []) = byte_length-repeat "-" refl w
rule_width (w ∷ v ∷ ws) = omega (
  arith,
  byte_length-spaced (repeat "-" w) (repeat "-" v) (map (repeat "-") ws),
  byte_length-repeat "-" refl w,
  rule_width (v ∷ ws),
)

-- Widths that a row has widened fit it, and what fitted before.
widen_grows : (ws : List ℕ) (r cols : List String) → Fits ws cols → Fits (widen ws r) cols
unfolding widen
widen_grows [] r [] f = tt
widen_grows [] r (c ∷ cs) f = elim f [ ]
widen_grows (w ∷ ws) r [] f = elim f [ ]
widen_grows (w ∷ ws) [] (c ∷ cs) f = f
widen_grows (w ∷ ws) (d ∷ r) (c ∷ cs) f = (ground (arith, f.0), widen_grows ws r cs f.1)

widen-Fits : (ws : List ℕ) (r : List String) → length r ≡ length ws → Fits (widen ws r) r
unfolding widen
widen-Fits [] [] h = tt
widen-Fits [] (c ∷ r) h = absurd (omega (arith, h))
widen-Fits (w ∷ ws) [] h = absurd (omega (arith, h))
widen-Fits (w ∷ ws) (c ∷ r) h = (ground arith, widen-Fits ws r (omega (arith, h)))

length-widen : (ws : List ℕ) (r : List String) → length (widen ws r) ≡ length ws
unfolding widen
length-widen [] r = refl
length-widen (w ∷ ws) [] = refl
length-widen (w ∷ ws) (c ∷ r) = ap suc (length-widen ws r)

widen_all_grows :
    (ws : List ℕ) (rows : List (List String)) (cols : List String)
    → Fits ws cols
    → Fits (widen_all ws rows) cols
unfolding widen_all
widen_all_grows ws [] cols f = f
widen_all_grows ws (r ∷ rows) cols f =
    widen_all_grows (widen ws r) rows cols (widen_grows ws r cols f)

widen_all-Fits :
    (ws : List ℕ) (rows : List (List String)) (r : List String)
    → Memᴰ r rows
    → length r ≡ length ws
    → Fits (widen_all ws rows) r
unfolding widen_all
widen_all-Fits ws [] r m h = absurd (Memᴰ.not-nil m)
widen_all-Fits ws (q ∷ rows) r (head e) h =
    widen_all_grows (widen ws q) rows r (rw (← e) (widen-Fits ws r h))
widen_all-Fits ws (q ∷ rows) r (tail m) h =
    widen_all-Fits (widen ws q) rows r m (h ∙ sym (length-widen ws q))

header-Fits : (headers : List String) → Fits (map byte_length headers) headers
header-Fits [] = tt
header-Fits (c ∷ cs) = (omega arith, header-Fits cs)

length-header : (headers : List String) → length headers ≡ length (map byte_length headers)
length-header [] = refl
length-header (c ∷ cs) = ap suc (length-header cs)

row_of_line :
    (f : List String → String) (l : String) (rows : List (List String))
    → Memᴰ l (map f rows)
    → (r : List String) × Memᴰ r rows × (l ≡ f r)
row_of_line f l [] m = absurd (Memᴰ.not-nil m)
row_of_line f l (r ∷ rows) (head e) = (r, head refl, e)
row_of_line f l (r ∷ rows) (tail m) = let (q, i, e) = row_of_line f l rows m in (q, tail i, e)

-- Where each row has as many columns as there are headers, all the lines of a table, the headers'
-- and the rule among them, are equally many bytes long.
pub table_lines-width :
    (headers : List String) (rows : List (List String)) (l : String)
    → ((r : List String) → Memᴰ r rows → length r ≡ length headers)
    → Memᴰ l (table_lines headers rows)
    → byte_length l ≡ line_width (table_widths headers rows)
unfolding table_lines
table_lines-width headers rows l same (head e) =
    ap byte_length e
    ∙ table_line-width (table_widths headers rows) headers
        (widen_all_grows (map byte_length headers) rows headers (header-Fits headers))
table_lines-width headers rows l same (tail (head e)) =
    ap byte_length e ∙ rule_width (table_widths headers rows)
table_lines-width headers rows l same (tail (tail m)) =
    let ws = table_widths headers rows in
    let (r, i, e) = row_of_line (table_line ws) l rows m in
    ap byte_length e
    ∙ table_line-width ws r
        (widen_all-Fits (map byte_length headers) rows r i (same r i ∙ length-header headers))
