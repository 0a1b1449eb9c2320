-- ===== src/Simulation/Calls/Nested.antt =====
-- The call stack of a trace in which every call is closed by a return or a revert.
use aiops_bundler.Base.{
  ℕ, String, Bool, true, false, List, [], ◌∷◌, ◌++◌, Option, none, some, ◌≡◌, refl, ◌∙◌, ap, sym,
}
use mathlib.Core.Path.{◌≡⟨◌⟩◌, ◌∎}
use mathlib.Core.List.{append_assoc, append-nil}
use aiops_bundler.Simulation.Calls.{
  CallType, revert, return, create, call, CallInfo, CallEntry, push, pop, entry_of, close,
  call_loop, new_call_stack,
}

-- A call, by its info and its opcode (`none` is a creation), the calls that it makes, how it ends and
-- with which data; and the calls that follow it.
pub data Calls {ℓ} (D : Type ℓ) : Type ℓ where
  done : Calls D
  made : CallInfo D → Option String → Calls D → Bool → D → Calls D → Calls D

abbrev pub opening : Option String → CallType
opening none = create
opening (some opcode) = call opcode

abbrev pub ending : Bool → CallType
ending true = revert
ending false = return

module _ {ℓ} {D : Type ℓ} where
  abbrev pub entering : CallInfo D → Option String → CallInfo D
  entering info opcode = record info { type = opening opcode }

  abbrev pub leaving : CallInfo D → Bool → D → CallInfo D
  leaving info reverted payload = record info { type = ending reverted; payload = payload }

  -- The trace of the calls.
  unfoldable pub traced : Calls D → List (CallInfo D)
  traced done = []
  traced (made info opcode inner reverted payload next) =
      entering info opcode ∷ (traced inner ++ (leaving info reverted payload ∷ traced next))

module _ {ℓ} {D : Type ℓ} (set_string : String → Option ℕ) (nil : D) where
  -- The calls that returned and are no creations, each after those that it made.
  unfoldable pub returned_calls : Calls D → List (CallEntry D)
  returned_calls done = []
  returned_calls (made info none inner reverted payload next) =
      returned_calls inner ++ returned_calls next
  returned_calls (made info (some opcode) inner true payload next) =
      returned_calls inner ++ returned_calls next
  returned_calls (made info (some opcode) inner false payload next) =
      returned_calls inner
      ++ (entry_of set_string nil (entering info (some opcode)) payload ∷ returned_calls next)

  abbrev closing : CallInfo D → Option String → Bool → D → List (CallEntry D)
  closing info opcode reverted payload =
      close set_string nil (ending reverted) (entering info opcode) payload

  returned_calls-made :
      (info : CallInfo D) (opcode : Option String) (inner : Calls D) (reverted : Bool) (payload : D)
      (next : Calls D)
      → returned_calls (made info opcode inner reverted payload next)
        ≡ returned_calls inner ++ (closing info opcode reverted payload ++ returned_calls next)
  unfolding returned_calls
  returned_calls-made info none inner reverted payload next = refl
  returned_calls-made info (some opcode) inner true payload next = refl
  returned_calls-made info (some opcode) inner false payload next = refl

  -- The steps that open and close a call.
  call_loop-open :
      (info : CallInfo D) (opcode : Option String) (rest stack : List (CallInfo D))
      (out : List (CallEntry D))
      → call_loop set_string nil (entering info opcode ∷ rest) stack out
        ≡ call_loop set_string nil rest (entering info opcode ∷ stack) out
  unfolding call_loop push
  call_loop-open info none rest stack out = refl
  call_loop-open info (some opcode) rest stack out = refl

  call_loop-close :
      (info : CallInfo D) (opcode : Option String) (reverted : Bool) (payload : D)
      (rest stack : List (CallInfo D)) (out : List (CallEntry D))
      → call_loop set_string nil
          (leaving info reverted payload ∷ rest)
          (entering info opcode ∷ stack)
          out
        ≡ call_loop set_string nil rest stack (out ++ closing info opcode reverted payload)
  unfolding call_loop pop
  call_loop-close info opcode true payload rest stack out = refl
  call_loop-close info opcode false payload rest stack out = refl

  call_loop_lem :
      (calls : Calls D) (rest stack : List (CallInfo D)) (out : List (CallEntry D))
      → call_loop set_string nil (traced calls ++ rest) stack out
        ≡ call_loop set_string nil rest stack (out ++ returned_calls calls)
  unfolding traced
  call_loop_lem done rest stack out = unfold returned_calls in rw (append-nil out) refl
  call_loop_lem (made info opcode inner reverted payload next) rest stack out =
      let after = leaving info reverted payload ∷ (traced next ++ rest) in
      let top = entering info opcode ∷ stack in
      let mid = closing info opcode reverted payload in
      call_loop set_string nil (traced (made info opcode inner reverted payload next) ++ rest) stack
        out
      ≡⟨ ap (λ l. call_loop set_string nil (entering info opcode ∷ l) stack out)
          (append_assoc (traced inner) (leaving info reverted payload ∷ traced next) rest) ⟩
        call_loop set_string nil (entering info opcode ∷ (traced inner ++ after)) stack out
      ≡⟨ call_loop-open info opcode (traced inner ++ after) stack out ⟩
        call_loop set_string nil (traced inner ++ after) top out
      ≡⟨ call_loop_lem inner after top out ⟩
        call_loop set_string nil after top (out ++ returned_calls inner)
      ≡⟨ call_loop-close info opcode reverted payload (traced next ++ rest) stack
          (out ++ returned_calls inner) ⟩
        call_loop set_string nil (traced next ++ rest) stack ((out ++ returned_calls inner) ++ mid)
      ≡⟨ call_loop_lem next rest stack ((out ++ returned_calls inner) ++ mid) ⟩
        call_loop set_string nil rest stack
          (((out ++ returned_calls inner) ++ mid) ++ returned_calls next)
      ≡⟨ ap (call_loop set_string nil rest stack)
          (rw (returned_calls-made info opcode inner reverted payload next) (simp (append_assoc))) ⟩
        call_loop set_string nil rest stack
          (out ++ returned_calls (made info opcode inner reverted payload next)) ∎

  -- The call stack of a trace in which every call is closed holds exactly the calls that returned
  -- and are no creations, each after those that it made.
  pub new_call_stack_lem :
      (calls : Calls D) → new_call_stack set_string nil (traced calls) ≡ returned_calls calls
  unfolding new_call_stack call_loop
  new_call_stack_lem calls =
      ap (λ l. call_loop set_string nil l [] []) (sym (append-nil (traced calls)))
      ∙ call_loop_lem calls [] [] []
