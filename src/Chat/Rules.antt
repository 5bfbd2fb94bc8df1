-- ===== src/Chat/Rules.antt =====
-- What a turn may do beside handing events over: the rules, and how the effects are counted.
use omnigent_go_sdk.Prelude.{
  ℕ, ◌+◌, ◌<◌, ◌≡◌, Bool, true, false, List, [], ◌∷◌, ◌++◌, length, arith,
}
use omnigent_go_sdk.Prelude.Text.{Text, same}
use omnigent_go_sdk.Tool.{ToolCallInfo, run_tool_of}
use omnigent_go_sdk.Chat.{
  HookCall, ElicitationCtx, decided, Effect, hooked, tool_run, output_posted, verdict_posted, World,
  tool_budget,
}

abbrev pub one_if : Bool → ℕ
one_if true = 1
one_if false = 0

abbrev pub count : (Effect → ℕ) → List Effect → ℕ
count f [] = 0
count f (e ∷ es) = f e + count f es

abbrev pub is_run : Effect → ℕ
is_run (tool_run _) = 1
is_run _ = 0

abbrev pub is_run_of : Text → Effect → ℕ
is_run_of k (tool_run info) = one_if (same info.call_id k)
is_run_of k _ = 0

abbrev pub is_post_of : Text → Effect → ℕ
is_post_of k (output_posted _ call_id _) = one_if (same call_id k)
is_post_of k _ = 0

-- How many tools ran, and how often a call ran and was answered.
abbrev pub total_runs : List Effect → ℕ
total_runs = count is_run

abbrev pub runs : Text → List Effect → ℕ
runs k = count (is_run_of k)

abbrev pub posts : Text → List Effect → ℕ
posts k = count (is_post_of k)

pub count-snoc :
    (f : Effect → ℕ) (es : List Effect) (e : Effect) → count f (es ++ e ∷ []) ≡ count f es + f e
count-snoc f [] e = ground arith
count-snoc f (x ∷ es) e = ground (arith, count-snoc f es e)

-- Nothing but calls of hooks.
pub data OnlyHooks : List Effect → Type 0 where
  silence : OnlyHooks []
  told : (es : List Effect) (call : HookCall) → OnlyHooks es → OnlyHooks (es ++ hooked call ∷ [])

-- The effect may follow the effects of the past:
-- a hook may always be called;
-- a call is run where it has not been run, and where the budget, if there is one, is not used up;
-- an output is posted for the last tool that ran, and it is that tool's, to the chat's session;
-- an approval may always be declined, and is given where the hook has just granted it.
pub data Allowed (world : World) (past : List Effect) : Effect → Type 0 where
  observe : (call : HookCall) → Allowed world past (hooked call)
  run_call :
      (info : ToolCallInfo)
      → runs info.call_id past ≡ 0
      → (0 < tool_budget world.max_tool_calls → total_runs past < tool_budget world.max_tool_calls)
      → Allowed world past (tool_run info)
  answer_call :
      (info : ToolCallInfo) (earlier since : List Effect)
      → OnlyHooks since
      → past ≡ earlier ++ tool_run info ∷ since
      → Allowed world past (
          output_posted world.session_id info.call_id
            (run_tool_of world.tools (length earlier) info).0)
  decline :
      (session_id elicitation_id : Text)
      → Allowed world past (verdict_posted session_id elicitation_id false)
  grant :
      (ctx : ElicitationCtx)
      → world.on_elicitation past ctx ≡ decided true
      → Allowed world past (verdict_posted ctx.session_id ctx.elicitation_id true)

-- Every effect was allowed when it happened.
pub data Lawful (world : World) : List Effect → Type 0 where
  idle : Lawful world []
  next :
      (past : List Effect) (e : Effect)
      → Lawful world past
      → Allowed world past e
      → Lawful world (past ++ e ∷ [])
