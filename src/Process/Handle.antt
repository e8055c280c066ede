-- ===== src/Process/Handle.antt =====
-- process.c `process`: a line from the server is split and given to the handlers of its command. What handlers
-- do is a parameter; they do not change the chain that is running. Logging is left out, and so is the module
-- that is loaded or unloaded at the end.
pub mod Words
pub mod Chain
use k9_chatnet.Common.{
  ℕ, Bool, true, false, ◌&&◌, not, List, [], ◌∷◌, Bytes, Option, none, some, peek, take, ◌==◌,
  if◌then◌else◌,
}
use k9_chatnet.Text.Number.{skip_spaces}
use k9_chatnet.Text.Clean.{do_clean_buffer}
use k9_chatnet.Process.Split.{split_buf}
use k9_chatnet.User.Table.{rest_of}
use k9_chatnet.Dispatch.{Message, MessageTable, find_message}

-- What the handlers work on, with the global variable that `process` sets.
pub record State (W : Type 0) : Type 0 where
  pub world : W
  pub mod_current_buffer : Option Bytes

-- A handler gets the source and the arguments, and returns MOD_CONT, which is 0, or something else.
abbrev pub Handlers : Type 0 → Type 0
Handlers W = ℕ → Bytes → List Bytes → State W → State W × ℕ

-- `strpbrk(buf, " ")`: what stands before the first space, and what behind it.
unfoldable pub break_at : Bytes → Bytes × Option Bytes
break_at [] = ([], none)
break_at (c ∷ s) =
    let (word, rest) = break_at s in if c == b' ' then ([], some s) else (c ∷ word, rest)

-- The source, and what is left of the line; `none` where `process` returns.
abbrev pub source_found : Bytes × Option Bytes → Option (Bytes × Bytes)
source_found (word, none) = none
source_found (word, some s) = some (take 63 (rest_of word), skip_spaces s)

unfoldable pub take_source : Bytes → Option (Bytes × Bytes)
take_source buf = if peek buf == b':' then source_found (break_at buf) else some ([], buf)

-- The command, and the text of the arguments.
abbrev pub command_found : Bytes × Option Bytes → Bytes × Bytes
command_found (word, none) = (take 63 word, [])
command_found (word, some s) = (take 63 word, skip_spaces s)

-- `av[1]`, which is NULL where there are fewer arguments.
abbrev pub second : List Bytes → Option Bytes
second (a ∷ (b ∷ av)) = some b
second _ = none

module _ {W : Type 0} (call : Handlers W) (source : Bytes) (av : List Bytes) where
  -- The loop over the messages behind the first, after a handler that returned `ret`.
  unfoldable pub call_rest : List Message → State W × ℕ → State W
  call_rest [] (st, ret) = st
  call_rest (m ∷ ms) (st, ret) =
      let further = call_rest ms (call m.func source av st) in
      if not (m.func == 0) && ret == 0 then further else st

  unfoldable pub call_first : List Message → State W → State W
  call_first [] st = st
  call_first (m ∷ ms) st =
      let called = call_rest ms (call m.func source av st) in if m.func == 0 then st else called

module _ {W : Type 0} (call : Handlers W) (table : MessageTable) where
  -- What is done with the arguments; `none` is the end of the fuel of `split_buf`.
  abbrev pub handle : Bytes → Bytes → Option (List Bytes) → State W → Option (State W)
  handle source cmd none st = none
  handle source cmd (some av) st = some (
      call_first call source av (find_message table cmd)
        (record st { mod_current_buffer = second av }))

  abbrev pub handle_line : Option (Bytes × Bytes) → State W → Option (State W)
  handle_line none st = some st
  handle_line (some (source, [])) st = some st
  handle_line (some (source, c ∷ buf)) st =
      let (cmd, s) = command_found (break_at (c ∷ buf)) in handle source cmd (split_buf s true) st

  unfoldable pub process : Bytes → State W → Option (State W)
  process inbuf st = handle_line (take_source (do_clean_buffer (take 511 inbuf))) st
