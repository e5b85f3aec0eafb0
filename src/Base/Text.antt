-- ===== src/Base/Text.antt =====
-- Decimal print, `strconv.Itoa` and `%d`, and the bytes of a text.
use Prim.Native.Nat.{ℕ, zero, suc, ◌+◌, ◌/◌, ◌%◌}
use Prim.Native.Char.{code}
use Prim.Native.String.{String, ◌++◌ as ◌<>◌}
use mathlib.Core.List.{List, [], ◌∷◌, ◌++◌, append_assoc}
use text.Mathlib.TextLemmas.{nil-append, cons-append}
use mathlib.Core.Path.{◌≡◌, refl, ap, sym, ◌∙◌}
use agent_inbox_question.Base.Tests.{ltb, if◌then◌else◌}
use agent_inbox_question.Base.Lists.{get_or}

abbrev digit_names : List String
digit_names = "0" ∷ "1" ∷ "2" ∷ "3" ∷ "4" ∷ "5" ∷ "6" ∷ "7" ∷ "8" ∷ "9" ∷ []

-- A number has fewer digits than it has units, or one.
digits : ℕ → ℕ → String
digits zero n = get_or digit_names n "0"
digits (suc fuel) n =
    let rest = digits fuel (n / 10) <> get_or digit_names (n % 10) "0" in
    if ltb n 10 then get_or digit_names n "0" else rest

unfoldable pub itoa : ℕ → String
unfolding digits
itoa n = digits n n

abbrev pub codes : String → List ℕ
codes String.[] = []
codes (String.◌∷◌ c s) = code c ∷ codes s

-- The UTF-8 bytes of a code point.
unfoldable pub utf8 : ℕ → List ℕ
utf8 c =
    if ltb c 128
    then c ∷ []
    else if ltb c 2048
    then (192 + c / 64) ∷ (128 + c % 64) ∷ []
    else if ltb c 65536
    then (224 + c / 4096) ∷ (128 + c / 64 % 64) ∷ (128 + c % 64) ∷ []
    else (240 + c / 262144) ∷ (128 + c / 4096 % 64) ∷ (128 + c / 64 % 64) ∷ (128 + c % 64) ∷ []

abbrev pub encode : List ℕ → List ℕ
encode [] = []
encode (c ∷ cs) = utf8 c ++ encode cs

unfoldable pub bytes : String → List ℕ
unfolding utf8
bytes s = encode (codes s)

pub codes-append : (s t : String) → codes (s <> t) ≡ codes s ++ codes t
codes-append String.[] t = ap codes (nil-append t)
codes-append (String.◌∷◌ c s) t =
    ap codes (cons-append c s t) ∙ ap (λ (cs : List ℕ). code c ∷ cs) (codes-append s t)

encode-append : (cs ds : List ℕ) → encode (cs ++ ds) ≡ encode cs ++ encode ds
encode-append [] ds = refl
encode-append (c ∷ cs) ds =
    ap (λ (bs : List ℕ). utf8 c ++ bs) (encode-append cs ds)
    ∙ sym (append_assoc (utf8 c) (encode cs) (encode ds))

pub bytes-append : (s t : String) → bytes (s <> t) ≡ bytes s ++ bytes t
unfolding bytes
bytes-append s t = ap encode (codes-append s t) ∙ encode-append (codes s) (codes t)

-- The last code of a text, 0 where it has none.
abbrev pub last : List ℕ → ℕ
last [] = 0
last (c ∷ []) = c
last (c ∷ d ∷ cs) = last (d ∷ cs)

pub last-append : (cs : List ℕ) (d : ℕ) (ds : List ℕ) → last (cs ++ d ∷ ds) ≡ last (d ∷ ds)
last-append [] d ds = refl
last-append (c ∷ []) d ds = refl
last-append (c ∷ b ∷ cs) d ds = last-append (b ∷ cs) d ds
