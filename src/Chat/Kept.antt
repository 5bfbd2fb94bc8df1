-- ===== src/Chat/Kept.antt =====
-- chat.go: the effects between two events, and between a tool's run and its answer.
use omnigent_go_sdk.Prelude.{
  ◌+◌, ◌<◌, ◌≡◌, refl, sym, ap, ◌∙◌, subst, false, List, [], ◌∷◌, ◌++◌, append_assoc, length, arith,
}
use omnigent_go_sdk.Prelude.Text.{Text, same, same_iff}
use omnigent_go_sdk.Prelude.Maps.{TextSet, member, add, member-add, length-add}
use omnigent_go_sdk.Tool.{ToolCallInfo, run_tool_of}
use omnigent_go_sdk.Chat.{
  HookCall, HookOutcome, unset, completed, panicked, Effect, hooked, tool_run, output_posted, World,
  TurnRun, tool_budget, report, done, fire_outcome, fire,
}
use omnigent_go_sdk.Chat.Rules.{
  one_if, count-snoc, is_run, is_run_of, is_post_of, total_runs, runs, posts, OnlyHooks, silence,
  told, Allowed, observe, run_call, answer_call, Lawful, next,
}

-- Between two events.
pub record Settled (world : World) (effects : List Effect) (dispatched : TextSet) : Type 0 where
  pub lawful : Lawful world effects
  pub ran : (k : Text) → runs k effects ≡ one_if (member k dispatched)
  pub total : total_runs effects ≡ length dispatched
  pub answered : (k : Text) → posts k effects ≡ runs k effects

-- Between a tool's run and the post of its output.
pub record Owing (world : World) (info : ToolCallInfo) (output : Text) (effects : List Effect)
    (dispatched : TextSet) : Type 0 where
  lawful : Lawful world effects
  ran : (k : Text) → runs k effects ≡ one_if (member k dispatched)
  total : total_runs effects ≡ length dispatched
  answered : (k : Text) → posts k effects + one_if (same info.call_id k) ≡ runs k effects
  earlier : List Effect
  since : List Effect
  trail : effects ≡ earlier ++ tool_run info ∷ since
  quiet : OnlyHooks since
  own : output ≡ (run_tool_of world.tools (length earlier) info).0

module _ (world : World) where
  abbrev pub Calm : TurnRun → Type 0
  Calm run = Settled world run.effects run.dispatched

  hooked-Settled :
      (effects : List Effect) (dispatched : TextSet) (call : HookCall)
      → Settled world effects dispatched
      → Settled world (effects ++ hooked call ∷ []) dispatched
  hooked-Settled effects dispatched call h = record {
    lawful = next effects (hooked call) h.lawful (observe call);
    ran = λ k. count-snoc (is_run_of k) effects (hooked call) ∙ omega (arith, h.ran k);
    total = omega (arith, count-snoc is_run effects (hooked call), h.total);
    answered = λ k. omega (
      arith,
      h.answered k,
      count-snoc (is_run_of k) effects (hooked call),
      count-snoc (is_post_of k) effects (hooked call),
    );
  }

  fire_outcome-Calm :
      (run : TurnRun) (call : HookCall) (o : HookOutcome)
      → Calm run
      → Calm (fire_outcome run call o)
  unfolding fire_outcome report done
  fire_outcome-Calm run call unset h = h
  fire_outcome-Calm run call completed h = hooked-Settled run.effects run.dispatched call h
  fire_outcome-Calm run call (panicked reason) h = hooked-Settled run.effects run.dispatched call h

  pub fire-Calm : (run : TurnRun) (call : HookCall) → Calm run → Calm (fire world run call)
  unfolding fire
  fire-Calm run call h = fire_outcome-Calm run call (world.hooks run.effects call) h

  abbrev pub Pending : ToolCallInfo → Text → TurnRun → Type 0
  Pending info output run = Owing world info output run.effects run.dispatched

  hooked-Owing :
      (info : ToolCallInfo) (output : Text) (effects : List Effect) (dispatched : TextSet)
      (call : HookCall)
      → Owing world info output effects dispatched
      → Owing world info output (effects ++ hooked call ∷ []) dispatched
  hooked-Owing info output effects dispatched call h = record {
    lawful = next effects (hooked call) h.lawful (observe call);
    ran = λ k. count-snoc (is_run_of k) effects (hooked call) ∙ omega (arith, h.ran k);
    total = omega (arith, count-snoc is_run effects (hooked call), h.total);
    answered = λ k. omega (
      arith,
      h.answered k,
      count-snoc (is_run_of k) effects (hooked call),
      count-snoc (is_post_of k) effects (hooked call),
    );
    earlier = h.earlier;
    since = h.since ++ hooked call ∷ [];
    trail =
        ap (λ (es : List Effect). es ++ hooked call ∷ []) h.trail
        ∙ append_assoc h.earlier (tool_run info ∷ h.since) (hooked call ∷ []);
    quiet = told h.since call h.quiet;
    own = h.own;
  }

  pub fire_outcome-Pending :
      (info : ToolCallInfo) (output : Text) (run : TurnRun) (call : HookCall) (o : HookOutcome)
      → Pending info output run
      → Pending info output (fire_outcome run call o)
  unfolding fire_outcome report done
  fire_outcome-Pending info output run call unset h = h
  fire_outcome-Pending info output run call completed h =
      hooked-Owing info output run.effects run.dispatched call h
  fire_outcome-Pending info output run call (panicked reason) h =
      hooked-Owing info output run.effects run.dispatched call h

  pub started :
      (run : TurnRun) (info : ToolCallInfo)
      → member info.call_id run.dispatched ≡ false
      → (0 < tool_budget world.max_tool_calls
          → length run.dispatched < tool_budget world.max_tool_calls)
      → Calm run
      → Owing world info
          (run_tool_of world.tools (length run.effects) info).0
          (run.effects ++ tool_run info ∷ [])
          (add info.call_id run.dispatched)
  started run info fresh within h = record {
    lawful = next run.effects (tool_run info) h.lawful (
        run_call info (ground (arith, h.ran info.call_id, fresh))
          (λ capped. omega (arith, h.total, within capped)));
    ran = λ k. ground (
      arith,
      fresh,
      count-snoc (is_run_of k) run.effects (tool_run info),
      h.ran k,
      member-add info.call_id k run.dispatched,
      same_iff info.call_id k,
    );
    total = omega (
      arith,
      count-snoc is_run run.effects (tool_run info),
      h.total,
      length-add info.call_id run.dispatched fresh,
    );
    answered = λ k. omega (
      arith,
      h.answered k,
      count-snoc (is_run_of k) run.effects (tool_run info),
      count-snoc (is_post_of k) run.effects (tool_run info),
    );
    earlier = run.effects;
    since = [];
    trail = refl;
    quiet = silence;
    own = refl;
  }

  pub paid :
      (info : ToolCallInfo) (output : Text) (effects : List Effect) (dispatched : TextSet)
      → Owing world info output effects dispatched
      → Settled world
          (effects ++ output_posted world.session_id info.call_id output ∷ [])
          dispatched
  paid info output effects dispatched h =
      let e : Effect = output_posted world.session_id info.call_id output in
      record {
        lawful = next effects e h.lawful (
            subst (λ o. Allowed world effects (output_posted world.session_id info.call_id o))
              (sym h.own) (answer_call info h.earlier h.since h.quiet h.trail));
        ran = λ k. count-snoc (is_run_of k) effects e ∙ omega (arith, h.ran k);
        total = omega (arith, count-snoc is_run effects e, h.total);
        answered = λ k. omega (
          arith,
          h.answered k,
          count-snoc (is_run_of k) effects e,
          count-snoc (is_post_of k) effects e,
        );
      }
