-- ===== src/Process/Handle/Chain.antt =====
-- process.c and modules.c together: a module's handler in front of the others for a command.
use k9_chatnet.Common.{
  ℕ, ◌≡◌, refl, sym, ap, ◌∙◌, inl, inr, Bool, false, List, [], ◌∷◌, Bytes, some, take, IsText,
  arith, ◌==◌, if◌then◌else◌, Bool-cases, All,
}
use k9_chatnet.Text.Case.{same_text}
use k9_chatnet.Text.Clean.{words}
use k9_chatnet.Dispatch.{Message, MessageTable, add_message, find_message}
use k9_chatnet.Dispatch.Chains.{extended, find_message-add_message}
use k9_chatnet.Process.Handle.{State, Handlers, second, call_rest, call_first, process}
use k9_chatnet.Process.Handle.Words.{HasNoTab, line_of, handled, process-words}
use k9_chatnet.Common.{==_iff}

module _ {W : Type 0} (call : Handlers W) (source : Bytes) (av : List Bytes) where
  -- Behind a handler that returned MOD_CONT the loop goes on as it begins.
  call_rest-continue :
      (ms : List Message) (st : State W)
      → call_rest call source av ms (st, 0) ≡ call_first call source av ms st
  unfolding call_rest call_first
  call_rest-continue [] st = refl
  call_rest-continue (m ∷ ms) st = elim (Bool-cases (m.func == 0)) [
    | inl null ↦ rw null refl
    | inr there ↦ rw there refl
  ]

  call_rest-stop :
      (ms : List Message) (st : State W) (ret : ℕ)
      → (ret == 0) ≡ false
      → call_rest call source av ms (st, ret) ≡ st
  unfolding call_rest
  call_rest-stop [] st ret h = refl
  call_rest-stop (m ∷ ms) st ret h = elim (Bool-cases (m.func == 0)) [
    | inl null ↦ rw null refl
    | inr there ↦ rw (there, h) refl
  ]

  -- What the handlers do behind one that is put in front of them.
  abbrev pub behind : List Message → State W × ℕ → State W
  behind ms (st, ret) = if ret == 0 then call_first call source av ms st else st

  call_rest-behind :
      (ms : List Message) (r : State W × ℕ) → call_rest call source av ms r ≡ behind ms r
  call_rest-behind ms (st, ret) = elim (Bool-cases (ret == 0)) [
    | inl go ↦ rw go (
        ap (λ k. call_rest call source av ms (st, k)) ((==_iff ret 0).0 go)
        ∙ call_rest-continue ms st)
    | inr stop ↦ rw stop (call_rest-stop ms st ret stop)
  ]

  call_first-front :
      (m : Message) (ms : List Message) (st : State W)
      → (m.func == 0) ≡ false
      → call_first call source av (m ∷ ms) st ≡ behind ms (call m.func source av st)
  unfolding call_first
  call_first-front m ms st h = rw h (call_rest-behind ms (call m.func source av st))

extended-front : (m : Message) (ms : List Message) → extended m 1 ms ≡ m ∷ ms
unfolding extended
extended-front m [] = refl
extended-front m (f ∷ fs) = refl

module _ {W : Type 0} (call : Handlers W) (strcasecmp : Bytes → Bytes → Bool)
    (documented : (s t : Bytes) → strcasecmp s t ≡ same_text s t) where
  -- A handler that a module puts in front of the others for a command, by `addMessage` with position 1, gets a line of that
  -- command first; the others get it, in their order as before, if it returns MOD_CONT, and else none does.
  -- A line of any other command is handled as before. This holds for lines that have a command and no white space but
  -- spaces, a handler that is not NULL, and names without a NUL, where
  -- `strcasecmp` compares as it is documented to.
  pub process-add_message :
      (table : MessageTable) (m : Message) (st : State W) (inbuf source cmd : Bytes)
      (av : List Bytes)
      → HasNoTab inbuf
      → line_of (words [] (take 511 inbuf)) ≡ some (source, cmd, av)
      → (m.func == 0) ≡ false
      → IsText cmd
      → IsText m.name
      → ((i : ℕ) → All (λ e. IsText e.name) (table i))
      → process call (add_message strcasecmp table m 1).1 inbuf st ≡ (
          if same_text cmd m.name
          then some (
              behind call source av
                (find_message table cmd)
                (call m.func source av (record st { mod_current_buffer = second av })))
          else process call table inbuf st)
  unfolding handled
  process-add_message table m st inbuf source cmd av clean line there tc tm tt' =
      let table' = (add_message strcasecmp table m 1).1 in
      let st' : State W = record st { mod_current_buffer = second av } in
      let chain =
        find_message-add_message strcasecmp documented table m 1 cmd (omega arith) tc tm tt' in
      let new : process call table' inbuf st
          ≡ some (call_first call source av (find_message table' cmd) st') =
        process-words call table' st inbuf clean ∙ ap (λ o. some (handled call table' st o)) line in
      let old : process call table inbuf st
          ≡ some (call_first call source av (find_message table cmd) st') =
        process-words call table st inbuf clean ∙ ap (λ o. some (handled call table st o)) line in
      elim (Bool-cases (same_text cmd m.name)) [
        | inl same ↦
            let front : find_message table' cmd ≡ m ∷ find_message table cmd =
              chain ∙ rw same (extended-front m (find_message table cmd)) in
            rw same (
              new
              ∙ ap (λ ms. some (call_first call source av ms st')) front
              ∙ ap some (call_first-front call source av m (find_message table cmd) st' there))
        | inr other ↦
            let same_chain : find_message table' cmd ≡ find_message table cmd =
              chain ∙ rw other refl in
            rw other (new ∙ ap (λ ms. some (call_first call source av ms st')) same_chain ∙ sym old)
      ]
