-- ===== src/Cli/Print/Laws.antt =====
-- The printer stops at its first error.
use agent_inbox_question.Base.{
  ℕ, suc, String, Bool, true, false, List, [], ◌∷◌, ◌++◌, if◌then◌else◌, ok, err, ◌≡◌, refl, sym,
  ◌∙◌, arith, inl, inr, Bool-cases,
}
use mathlib.Core.List.{append-nil, append_assoc}
use agent_inbox_question.Cli.Print.{
  Console, Printer, new_output_printer, write, printf, print_all, print_error, write_error,
}

-- The texts up to the first that the writer refuses, from its `n`-th write on, and whether it takes
-- them all.
abbrev pub taken : (ℕ → Bool) → ℕ → List String → List String
taken accepts n [] = []
taken accepts n (t ∷ ts) = if accepts n then t ∷ taken accepts (suc n) ts else []

abbrev pub takes_all : (ℕ → Bool) → ℕ → List String → Bool
takes_all accepts n [] = true
takes_all accepts n (t ∷ ts) = if accepts n then takes_all accepts (suc n) ts else false

module _ (accepts : ℕ → Bool) where
  abbrev stopped_printer : Console → Printer
  stopped_printer c = record { console = c; failed = true }

  print_all_stopped :
      (ts : List String) (c : Console)
      → print_all accepts ts (stopped_printer c) ≡ stopped_printer c
  unfolding print_all printf
  print_all_stopped [] c = refl
  print_all_stopped (t ∷ ts) c = print_all_stopped ts c

  abbrev took : String → Console → Console
  took t c = record { written = c.written ++ t ∷ []; writes = suc c.writes }

  abbrev refused : Console → Console
  refused c = record c { writes = suc c.writes }

  printf-took :
      (t : String) (c : Console)
      → accepts c.writes ≡ true
      → printf accepts t (new_output_printer c) ≡ new_output_printer (took t c)
  unfolding printf write
  printf-took t c a = ground (arith, a)

  printf-refused :
      (t : String) (c : Console)
      → accepts c.writes ≡ false
      → printf accepts t (new_output_printer c) ≡ stopped_printer (refused c)
  unfolding printf write
  printf-refused t c a = ground (arith, a)

  -- What a printer writes of texts is those up to the first that the writer refuses, and it reports
  -- an error just when there is one.
  pub print_all_prefix :
      (ts : List String) (c : Console)
      → let p = print_all accepts ts (new_output_printer c) in
        (p.console.written ≡ c.written ++ taken accepts c.writes ts)
        × (print_error p ≡ (if takes_all accepts c.writes ts then ok tt else err write_error))
  unfolding print_all
  print_all_prefix [] c = (sym (append-nil c.written), refl)
  print_all_prefix (t ∷ ts) c = elim (Bool-cases (accepts c.writes)) [
    | inl a ↦
        let (e, f) = print_all_prefix ts (took t c) in
        rw (printf-took t c a, print_all, a)
          (e ∙ append_assoc c.written (t ∷ []) (taken accepts (suc c.writes) ts), f)
    | inr a ↦
        rw (printf-refused t c a, print_all, print_all_stopped ts (refused c), a)
          (sym (append-nil c.written), refl)
  ]
