-- ===== src/BlockStream/Shown.antt =====
-- blockstream.go: showing a call or a result, against the invariant of BlockStream/Reports.
use omnigent_go_sdk.Prelude.{◌≡◌, true, false, [], ◌∷◌, Option, none, some, if_intro, arith}
use omnigent_go_sdk.Prelude.Text.{Text, same_iff}
use omnigent_go_sdk.Prelude.Maps.{lookup, insert, lookup-insert, member, add, member-add}
use omnigent_go_sdk.Sequence.{value}
use omnigent_go_sdk.Block.{Block, ToolExecution, text_chunk, tool_group, tool_result}
use omnigent_go_sdk.BlockStream.State.{BlockState, emit, put}
use omnigent_go_sdk.BlockStream.Text.{close_text}
use omnigent_go_sdk.BlockStream.Reasoning.{close_reasoning}
use omnigent_go_sdk.BlockStream.Calls.{show_call, know_call, keep_result, result_of, show_result}
use omnigent_go_sdk.BlockStream.Keeps.{View, At, is_prose, close_text-keeps, close_reasoning-keeps}
use omnigent_go_sdk.BlockStream.Reports.{
  call_reports_of, result_reports_of, call_reports, total-handed, Reported, quiet-none, prose_plain,
  silent, chunk-Reported, Still,
}

-- The call is marked, and not reported yet.
record Marked (call_id : Text) (v : View) : Type 0 where
  reported : Reported v
  marked : member call_id v.seen_calls ≡ true
  unreported : call_reports call_id v.out ≡ 0

module _ (call_id : Text) where
  silent-Marked :
      (s : BlockState) (b : Block)
      → is_prose b ≡ true
      → At (Marked call_id) s
      → At (Marked call_id) (put s b)
  unfolding put emit
  silent-Marked s b p h = record {
    reported = silent s b (λ k. quiet-none k b (prose_plain b p)) h.reported;
    marked = h.marked;
    unreported = omega (
      arith,
      h.unreported,
      (quiet-none call_id b (prose_plain b p)).0,
      total-handed (call_reports_of call_id) s.stopped s.out (value (some b)),
    );
  }

  chunk-Marked :
      (s : BlockState) (c rest : Text)
      → At (Marked call_id) s
      → At (Marked call_id) (record (put s (text_chunk s.ctx c)) { in_text = rest })
  unfolding put emit
  chunk-Marked s c rest h = record {
    reported = chunk-Reported s c rest h.reported;
    marked = h.marked;
    unreported = omega (
      arith,
      h.unreported,
      total-handed (call_reports_of call_id) s.stopped s.out (value (some (text_chunk s.ctx c))),
    );
  }

  closed-Marked :
      (s : BlockState)
      → At (Marked call_id) s
      → At (Marked call_id) (close_text (close_reasoning s))
  closed-Marked s h =
      close_text-keeps (Marked call_id) silent-Marked (λ s c rest _. chunk-Marked s c rest)
        (close_reasoning s)
        (close_reasoning-keeps (Marked call_id) silent-Marked (λ s c rest _. chunk-Marked s c rest)
          s h)

Marked-now :
    (s : BlockState) (call_id : Text)
    → member call_id s.seen_calls ≡ false
    → Still s
    → At (Marked call_id) (record s { seen_calls = add call_id s.seen_calls })
Marked-now s call_id fresh h = record {
  reported = record {
    calls = λ k. ground (arith, h.calls k, member-add call_id k s.seen_calls);
    results = h.results;
    known = h.known;
  };
  marked = ground (arith, member-add call_id call_id s.seen_calls, same_iff call_id call_id);
  unreported = ground (arith, h.calls call_id, fresh);
}

call_shown :
    (s : BlockState) (call_id : Text) (x : ToolExecution)
    → x.call_id ≡ call_id
    → At (Marked call_id) s
    → Still (put s (tool_group s.ctx (x ∷ [])))
unfolding put emit
call_shown s call_id x e h =
    let b : Block = tool_group s.ctx (x ∷ []) in
    record {
      calls = λ k. ground (
        arith,
        h.reported.calls k,
        h.marked,
        h.unreported,
        e,
        same_iff x.call_id k,
        total-handed (call_reports_of k) s.stopped s.out (value (some b)),
      );
      results = λ k. omega (
        arith,
        h.reported.results k,
        total-handed (result_reports_of k) s.stopped s.out (value (some b)),
      );
      known = h.reported.known;
    }

show_call-Reported :
    (s : BlockState) (call_id : Text) (x : ToolExecution)
    → x.call_id ≡ call_id
    → Still s
    → Still (show_call s call_id x)
unfolding show_call
show_call-Reported s call_id x e h =
    let seen : BlockState = record s { seen_calls = add call_id s.seen_calls } in
    if_intro Still (member call_id s.seen_calls) (λ _. h)
      (λ fresh.
        call_shown (close_text (close_reasoning seen)) call_id x e
          (closed-Marked call_id seen (Marked-now s call_id fresh h)))

pub know_call-Reported :
    (s : BlockState) (call_id : Text) (fresh : ToolExecution) (known : Option ToolExecution)
    → lookup call_id s.executions ≡ known
    → fresh.call_id ≡ call_id
    → Still s
    → Still (know_call s call_id fresh known)
unfolding know_call
know_call-Reported s call_id fresh (some prior) l e h =
    show_call-Reported s call_id prior (h.known call_id prior l) h
know_call-Reported s call_id fresh none l e h =
    show_call-Reported (record s { executions = insert call_id fresh s.executions }) call_id fresh e
      (record {
        calls = h.calls;
        results = h.results;
        known = λ k y l. ground (
          arith,
          h.known k y,
          l,
          e,
          lookup-insert call_id k fresh s.executions,
          same_iff call_id k,
        );
      })

pub show_result-Reported :
    (s : BlockState) (call_id output : Text) (x : ToolExecution)
    → x.call_id ≡ call_id
    → member call_id s.seen_results ≡ false
    → Still s
    → Still (show_result s call_id output x)
unfolding show_result keep_result put emit
show_result-Reported s call_id output x e fresh h =
    let b : Block = tool_result s.ctx (result_of call_id output x) in
    record {
      calls = λ k.
          omega
            (arith, h.calls k, total-handed (call_reports_of k) s.stopped s.out (value (some b)));
      results = λ k. ground (
        arith,
        h.results k,
        total-handed (result_reports_of k) s.stopped s.out (value (some b)),
        member-add call_id k s.seen_results,
        same_iff call_id k,
      );
      known = λ k y l. ground (
        arith,
        h.known k y,
        l,
        lookup-insert call_id k (record x { output = some output }) s.executions,
        same_iff call_id k,
      );
    }
