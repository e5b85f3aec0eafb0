-- ===== src/Agent/Plan.antt =====
-- internal/agent/agent.go: hashing, directives and the plan of steps.
pub mod Laws
use agent_inbox_question.Base.{
  ℕ, zero, suc, ◌+◌, ◌-◌, ◌*◌, ◌%◌, ◌^◌, String, ◌<>◌, Bool, true, false, Option, none, some, List,
  [], ◌∷◌, ◌++◌, length, get_or, ltb, leb, ◌==◌, if◌then◌else◌, bit_xor, ◌&&◌,
}
use agent_inbox_question.Base.Text.{bytes, codes, itoa}
use Prim.Native.String.{len, slice}

pub record Step : Type 0 where
  pub name : String
  pub token_cost : ℕ
  pub done : Bool
  pub output : String

-- FNV-1a on 32 bits, `hash/fnv`.
unfoldable pub fnv_32a : ℕ → List ℕ → ℕ
fnv_32a h [] = h
fnv_32a h (b ∷ bs) = fnv_32a (bit_xor h b * 16777619 % 2 ^ 32) bs

unfoldable pub hash_input : String → String → ℕ
unfolding fnv_32a bytes
hash_input title description = fnv_32a 2166136261 (bytes title ++ bytes description)

-- `salt*2654435761` is an `int` of 64 bits that is cut to 32, which is the product modulo 2^32.
unfoldable pub bounded_hash : ℕ → ℕ → ℕ → ℕ → ℕ
bounded_hash h salt lo hi =
    let mixed = bit_xor h (salt * 2654435761 % 2 ^ 32) in
    let span = hi + 1 - lo in lo + mixed % span

-- The map that parseDirectives returns, by its three keys.
pub record Directives : Type 0 where
  pub steps : Option ℕ
  pub fail_at : Option ℕ
  pub budget : Option ℕ

pub data DirectiveKey : Type 0 where
  steps_key fail_at_key budget_key : DirectiveKey

abbrev pub assign : DirectiveKey → ℕ → Directives → Directives
assign DirectiveKey.steps_key v d = record d { steps = some v }
assign DirectiveKey.fail_at_key v d = record d { fail_at = some v }
assign DirectiveKey.budget_key v d = record d { budget = some v }

-- The rest behind a prefix.
strip : List ℕ → List ℕ → Option (List ℕ)
strip [] cs = some cs
strip (p ∷ ps) [] = none
strip (p ∷ ps) (c ∷ cs) = if p == c then strip ps cs else none

is_digit : ℕ → Bool
is_digit c = leb b'0' c && leb c b'9'

-- `(\d+)\]`: the number read and what follows the bracket; `seen` says that a digit was read.
number : List ℕ → ℕ → Bool → Option (ℕ × List ℕ)
unfolding is_digit
number [] v seen = none
number (c ∷ cs) v seen =
    let more = number cs (v * 10 + (c - b'0')) true in
    if is_digit c then more else (if c == b']' && seen then some (v, cs) else none)

keyed : DirectiveKey → String → List ℕ → Option (DirectiveKey × ℕ × List ℕ)
unfolding strip number
keyed key prefix cs = elim (strip (codes prefix) cs) [
  | none ↦ none
  | some rest ↦ elim (number rest 0 false) [ none ↦ none | some (v, tail) ↦ some (key, v, tail) ]
]

abbrev or_else {ℓ} : {A : Type ℓ} → Option A → Option A → Option A
or_else none b = b
or_else (some a) b = some a

-- One match of directiveRe at the head of the text.
directive_at : List ℕ → Option (DirectiveKey × ℕ × List ℕ)
unfolding keyed
directive_at cs = or_else (keyed DirectiveKey.steps_key "[steps:" cs) (
    or_else (keyed DirectiveKey.fail_at_key "[fail-at:" cs)
      (keyed DirectiveKey.budget_key "[budget:" cs))

-- `strconv.Atoi` refuses what no 64-bit `int` holds.
abbrev pub max_int : ℕ
max_int = 9223372036854775807

scan : ℕ → List ℕ → Directives → Directives
unfolding directive_at
scan zero cs d = d
scan (suc fuel) [] d = d
scan (suc fuel) (c ∷ cs) d = elim (directive_at (c ∷ cs)) [
  | none ↦ scan fuel cs d
  | some (key, v, tail) ↦ scan fuel tail (if leb v max_int then assign key v d else d)
]

-- Every round of `scan` drops a character, so the length is fuel enough.
unfoldable pub parse_directives : String → Directives
unfolding scan
parse_directives desc =
    scan (length (codes desc)) (codes desc) (record { steps = none; fail_at = none; budget = none })

abbrev pub step_names : List String
step_names =
    "analyze" ∷ "research" ∷ "design" ∷ "draft" ∷ "implement" ∷ "refine" ∷ "test" ∷ "verify"
    ∷ "document" ∷ "review" ∷ []

-- `len` and `s[:max]` count bytes; a cut inside a character leaves the whole character out.
unfoldable pub truncate : String → ℕ → String
truncate s max = if leb (len s) max then s else slice s 0 max <> "..."

abbrev pub new_step : String → ℕ → Step
new_step name cost = record { name = name; token_cost = cost; done = false; output = "" }

-- The loop over the feedback; `quote` is `%q`, and `before` the number of steps made so far.
unfoldable pub feedback_steps : (String → String) → ℕ → ℕ → List String → List Step
feedback_steps quote h before [] = []
feedback_steps quote h before (fb ∷ fbs) =
    new_step ("revise per feedback: " <> quote (truncate fb 40))
      (bounded_hash h (before + 100) 150 300)
    ∷ feedback_steps quote h (before + 1) fbs

unfoldable pub step_name : ℕ → ℕ → String
unfolding itoa
step_name count i =
    let name = get_or step_names (i % 10) "" in
    if ltb 10 count then name <> " step " <> itoa (i + 1) else name

-- The loop `for i < count`, with `left` rounds to go.
unfoldable pub plan_steps : ℕ → ℕ → ℕ → ℕ → List Step
plan_steps h count zero i = []
plan_steps h count (suc left) i =
    new_step (step_name count i) (bounded_hash h i 150 400) ∷ plan_steps h count left (i + 1)

unfoldable pub build_steps : (String → String) → ℕ → ℕ → List String → List Step
build_steps quote h count feedback = feedback_steps quote h 0 feedback ++ plan_steps h count count 0

unfoldable pub step_count : String → String → ℕ
step_count title description = elim (parse_directives description).steps [
  | some v ↦ v
  | none ↦ bounded_hash (hash_input title description) 0 4 8
]
