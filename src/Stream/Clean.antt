-- ===== src/Stream/Clean.antt =====
-- stream.go: what a stream that ends without an error says of the server.
use omnigent_go_sdk.Prelude.{
  ℕ, ◌≡◌, refl, sym, subst, ◌∙◌, ◌⊎◌, inl, inr, Bool, true, false, not, ◌&&◌, List, [], ◌∷◌, none,
  is_empty, if_intro, ltb, ◌==◌, ==_iff, All, All-append_inv, arith, true≢false,
}
use omnigent_go_sdk.Prelude.Text.{Text, codes}
use omnigent_go_sdk.Errors.{Err, ApiError, api_error, invalid_argument, stream_protocol}
use omnigent_go_sdk.Wire.{Event}
use omnigent_go_sdk.Sequence.{failure, Consumer}
use omnigent_go_sdk.Stream.{
  StreamOptions, Reader, Progress, reading, saw_done, over, hand, read_lines, Ending, finish,
  why_cut_off, Connection, unreachable, responds, open_reader, read_body, stream,
}
use omnigent_go_sdk.Stream.Kept.{Delivers, Reading, Broken, by_caller, by_error, Fine, refused}
use omnigent_go_sdk.Stream.Lines.{read_lines-Fine}
use omnigent_go_sdk.Stream.Promises.{opened}

module _ (opts : StreamOptions) (caller : Consumer Event) where
  -- The connection was answered with status 200, its lines were read up to the sentinel, and events
  -- were handed over unless no frame was skipped.
  pub data Closed : Connection → Reader → Type 0 where
    closed :
        (err : ApiError) (lines : List Text) (ending : Ending) (r : Reader)
        → read_lines opts (open_reader caller) lines ≡ saw_done r
        → (r.skipped ≡ 0) ⊎ (r.delivered ≡ true)
        → Closed (responds 200 err lines ending) r

  Delivers-failure : (err : Err) → Delivers (failure none err) → (A : Type 0) → A
  Delivers-failure err h A = elim h [ ]

  broken :
      (r : Reader)
      → Broken opts caller r
      → All Delivers r.out
      → r.stopped ≡ false
      → (A : Type 0) → A
  broken r (by_caller e) h going A = absurd (true≢false (sym e ∙ going))
  broken r (by_error out err e) h going A =
      Delivers-failure err
        (All-append_inv Delivers out (failure none err ∷ []) (subst (All Delivers) e h)).1.0 A

  not_refused :
      (r : Reader) (err : Err)
      → Reading opts caller r
      → All Delivers (hand r (failure none err)).out
      → (hand r (failure none err)).stopped ≡ false
      → (A : Type 0) → A
  not_refused r err h d going =
      broken (hand r (failure none err)) (refused opts caller r err h).1 d going

  kept_some :
      (skipped : ℕ) (delivered : Bool)
      → (ltb 0 skipped && not delivered) ≡ false
      → (skipped ≡ 0) ⊎ (delivered ≡ true)
  kept_some skipped true e = inr refl
  kept_some skipped false e = inl (ground (arith, e))

  done :
      (ending : Ending) (err : ApiError) (lines : List Text) (p : Progress)
      → read_lines opts (open_reader caller) lines ≡ p
      → Fine opts caller p
      → All Delivers (finish ending p).out
      → (finish ending p).stopped ≡ false
      → Closed (responds 200 err lines ending) (finish ending p)
  unfolding finish
  done ending err lines (reading r) e h d going =
      not_refused r (why_cut_off ending ending.cancelled) h d going _
  done ending err lines (over r) e h d going = broken r h.1 d going _
  done ending err lines (saw_done r) e h d going =
      if_intro
        (λ (u : Reader).
          All Delivers u.out → u.stopped ≡ false → Closed (responds 200 err lines ending) u)
        (ltb 0 r.skipped && not r.delivered)
        (λ _ d' going'. not_refused r stream_protocol h d' going' _)
        (λ some_kept _ _. closed err lines ending r e (kept_some r.skipped r.delivered some_kept)) d
        going

  answered_well :
      (connection : Connection)
      → All Delivers (read_body opts (open_reader caller) connection).out
      → (read_body opts (open_reader caller) connection).stopped ≡ false
      → Closed connection (read_body opts (open_reader caller) connection)
  unfolding read_body
  answered_well (unreachable err) d going =
      not_refused (open_reader caller) err (opened opts caller) d going _
  answered_well (responds status err lines ending) d going =
      if_intro
        (λ (u : Reader).
          All Delivers u.out → u.stopped ≡ false → Closed (responds status err lines ending) u)
        (status == 200)
        (λ ok d' going'.
          subst
            (λ n.
              Closed (responds n err lines ending)
                (finish ending (read_lines opts (open_reader caller) lines)))
            (sym ((==_iff status 200).0 ok))
            (done ending err lines (read_lines opts (open_reader caller) lines) refl
              (read_lines-Fine opts caller (open_reader caller) lines (opened opts caller)) d'
              going'))
        (λ _ d' going'.
          not_refused (open_reader caller) (api_error err) (opened opts caller) d' going' _)
        d going

-- Where the caller has not stopped and every step is an event, the server answered with status 200,
-- its lines were read up to the sentinel, and either no frame was skipped or `delivered` was set: a
-- stream that was cut off, refused or not readable at all does not end quietly.
pub stream-Closed :
    (opts : StreamOptions) (caller : Consumer Event) (connection : Connection)
    → All Delivers (stream opts caller connection).out
    → (stream opts caller connection).stopped ≡ false
    → Closed opts caller connection (stream opts caller connection)
unfolding stream
stream-Closed opts caller connection =
    if_intro
      (λ (u : Reader). All Delivers u.out → u.stopped ≡ false → Closed opts caller connection u)
      (is_empty opts.session_id)
      (λ _ d going.
        not_refused opts caller (open_reader caller)
          (invalid_argument (codes "sessionID is required")) (opened opts caller) d going _)
      (λ _ d going. answered_well opts caller connection d going)
