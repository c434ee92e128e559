-- ===== src/Shell.antt =====
-- shell/minishell_core.c: the table of commands, in order, and a line that is taken apart and handed to
-- a command. `strcmp`, `memcmp` and `strtok` are the C library's; a string is the list of its bytes
-- without the NUL. The bounds of the table are those of the linker script, MINISHELL_START and
-- MINISHELL_END; the functions of commands are names.
pub mod Order
pub mod Sorted
pub mod Lookup
pub mod Prompt
use tmsxx_tc.Prelude.{
  ℕ, zero, suc, ◌-◌, Bool, true, false, ◌||◌, ◌&&◌, Option, none, some, List, [], ◌∷◌, ◌++◌, length,
  take, drop, get_or, set, ltb, leb, ◌==◌, if◌then◌else◌,
}

-- `struct cmd_table` and `struct cmd_prompt`
pub record CmdTable : Type 0 where
  pub name : List ℕ
  pub function : ℕ
  pub help : List ℕ

pub record CmdPrompt : Type 0 where
  pub name : List ℕ
  pub help : List ℕ
  pub next : Option ℕ
  pub kind : ℕ

-- `strcmp(a, b) > 0`
unfoldable pub strcmp_gt : List ℕ → List ℕ → Bool
strcmp_gt [] b = false
strcmp_gt (x ∷ a) [] = true
strcmp_gt (x ∷ a) (y ∷ b) = if x == y then strcmp_gt a b else ltb y x

module _ {A : Type 0} (name : A → List ℕ) where
  -- `for (pfind = pstart; pfind < pend; pfind++)`, with the entries from `pstart` on; `d` is what stands
  -- outside the table. It gives `pmin`.
  unfoldable pub find_least : A → List A → ℕ → ℕ → ℕ → ℕ
  find_least d l pmin pfind zero = pmin
  find_least d l pmin pfind (suc n) =
      find_least d l
        (if strcmp_gt (name (get_or l pmin d)) (name (get_or l pfind d)) then pfind else pmin)
        (suc pfind) n

  -- `*pmin` and `*pstart` change places.
  abbrev pub exchange_first : A → List A → ℕ → List A
  exchange_first c cs zero = c ∷ cs
  exchange_first c cs (suc j) = get_or cs j c ∷ set cs j c

  -- One round of `while (pstart < pend)`.
  unfoldable pub pass : List A → List A
  unfolding find_least
  pass [] = []
  pass (c ∷ cs) = exchange_first c cs (find_least c (c ∷ cs) 0 0 (length (c ∷ cs)))

  abbrev pub behind_first : (List A → List A) → List A → List A
  behind_first f [] = []
  behind_first f (c ∷ cs) = c ∷ f cs

  unfoldable pub sort_loop : ℕ → List A → List A
  unfolding pass
  sort_loop zero l = l
  sort_loop (suc n) l = behind_first (sort_loop n) (pass l)

unfoldable pub sh_sort : List CmdTable → List CmdTable
unfolding sort_loop
sh_sort l = sort_loop CmdTable.name (length l) l

-- The end is at `count - 1`: the last entry stays where it is. `count` is not 0.
unfoldable pub sh_sort_ex : List CmdPrompt → ℕ → List CmdPrompt
unfolding sort_loop
sh_sort_ex cmdlist count =
    sort_loop CmdPrompt.name (count - 1) (take (count - 1) cmdlist) ++ drop (count - 1) cmdlist

-- `seps`
abbrev pub is_sep : ℕ → Bool
is_sep b = b == 32 || b == 44 || b == 9 || b == 10

abbrev pub close_word : List ℕ × List (List ℕ) → List (List ℕ)
close_word ([], ws) = ws
close_word (b ∷ w, ws) = (b ∷ w) ∷ ws

-- The word that a string begins with, and the words behind it; a NUL ends the string.
unfoldable pub split_words : List ℕ → List ℕ × List (List ℕ)
split_words [] = ([], [])
split_words (b ∷ bs) =
    let r = split_words bs in
    if b == 0 then ([], []) else if is_sep b then ([], close_word r) else (b ∷ r.0, r.1)

-- What the calls of `strtok` give one after the other.
unfoldable pub tokens : List ℕ → List (List ℕ)
unfolding split_words
tokens bs = close_word (split_words bs)

-- `0 == memcmp(token, name, strlen(token))`
unfoldable pub is_prefix : List ℕ → List ℕ → Bool
is_prefix [] b = true
is_prefix (x ∷ a) [] = false
is_prefix (x ∷ a) (y ∷ b) = x == y && is_prefix a b

unfoldable pub find_command : List ℕ → List CmdTable → Option CmdTable
unfolding is_prefix
find_command token [] = none
find_command token (c ∷ cs) = if is_prefix token c.name then some c else find_command token cs

-- What a line comes to: a call of a command with its arguments, the message that there is no such
-- command, nothing, or words of a command that are stored behind the end of `cmd`.
pub data Answer : Type 0 where
  call : CmdTable → List (List ℕ) → Answer
  not_found : List ℕ → Answer
  nothing : Answer
  overrun : Answer

-- The length of `cmd`, which is not looked at.
abbrev pub cmd_max : ℕ
cmd_max = 256

abbrev pub answer_of : Option CmdTable → List ℕ → List (List ℕ) → Answer
answer_of none w ws = not_found w
answer_of (some c) w ws = if ltb cmd_max (length (w ∷ ws)) then overrun else call c (w ∷ ws)

abbrev pub answer : List CmdTable → List (List ℕ) → Answer
unfolding find_command
answer table [] = nothing
answer table (w ∷ ws) = answer_of (find_command w table) w ws

unfoldable pub sh_analyse : List CmdTable → List ℕ → ℕ → Answer
unfolding tokens answer
sh_analyse table fmt len = answer table (tokens (take len fmt))

-- `do_hostname` with one argument: `host` has ten bytes, and the NUL of the argument is not copied.
unfoldable pub do_hostname : List ℕ → List ℕ → List ℕ
do_hostname host argument =
    let len = if ltb 10 (length argument) then 10 else length argument in
    set (take len argument ++ drop len host) 9 0
