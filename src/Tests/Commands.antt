-- ===== src/Tests/Commands.antt =====
-- Commands of shell/minishell_core.c at concrete tables.
use tmsxx_tc.Prelude.{◌≡◌, refl, ap, none, List, [], ◌∷◌, length, arith, inl, inr}
use tmsxx_tc.Shell.{CmdTable, CmdPrompt, strcmp_gt, sh_sort, sh_analyse, call}
use tmsxx_tc.Shell.Lookup.{sh_analyse-sh_sort}

-- `help`, `hello` and `he`
abbrev help : CmdTable
help = record { name = 104 ∷ 101 ∷ 108 ∷ 112 ∷ []; function = 1; help = [] }

abbrev hello : CmdTable
hello = record { name = 104 ∷ 101 ∷ 108 ∷ 108 ∷ 111 ∷ []; function = 2; help = [] }

abbrev he : CmdTable
he = record { name = 104 ∷ 101 ∷ []; function = 3; help = [] }

abbrev table : List CmdTable
table = help ∷ hello ∷ he ∷ []

sorted_table : sh_sort table ≡ he ∷ hello ∷ help ∷ []
unfolding sh_sort strcmp_gt
sorted_table = refl

abbrev yes : CmdPrompt
yes = record { name = 121 ∷ []; help = []; next = none; kind = 0 }

abbrev no : CmdPrompt
no = record { name = 110 ∷ []; help = []; next = none; kind = 0 }

abbrev end : CmdPrompt
end = record { name = []; help = []; next = none; kind = 0 }

-- "he 5 ", with a space behind each word.
sh_analyse-sh_sort_example :
    sh_analyse (sh_sort table) (104 ∷ 101 ∷ 32 ∷ 53 ∷ 32 ∷ []) 5
    ≡ call he ((104 ∷ 101 ∷ []) ∷ (53 ∷ []) ∷ [])
sh_analyse-sh_sort_example =
    sh_analyse-sh_sort table he ((53 ∷ []) ∷ []) 32 refl (inr (inr (inl refl)))
      (
        (λ e. absurd (omega (arith, ap length e))),
        ((λ e. absurd (omega (arith, ap length e))), ((λ e. refl), tt)),
      )
      ((refl, (refl, tt)), ((refl, tt), tt)) (omega arith)
