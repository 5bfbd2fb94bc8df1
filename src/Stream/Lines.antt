-- ===== src/Stream/Lines.antt =====
-- stream.go: a line of the body, and a whole body.
use omnigent_go_sdk.Prelude.{
  suc, ◌+◌, ◌≤◌, ◌≡◌, true, List, [], ◌∷◌, ◌++◌, is_empty, if_intro, ltb, arith, if◌then◌else◌,
}
use omnigent_go_sdk.Prelude.Text.{
  Text, byte_length, byte_length-append, codes, rune_len, has_prefix, trim_prefix, trim_space,
}
use omnigent_go_sdk.Errors.{stream_frame_too_large}
use omnigent_go_sdk.Wire.{Event}
use omnigent_go_sdk.Sequence.{Consumer}
use omnigent_go_sdk.Stream.{
  max_frame_bytes, Frame, nothing_in, sentinel, carries, unreadable, decode_frame, StreamOptions,
  Reader, Progress, reading, saw_done, over, subscribe, take_frame, then_take, end_frame, add_data,
  read_line, and_then, read_lines, first_of,
}
use omnigent_go_sdk.Stream.Kept.{Reading, Fine, abort-Fine, cleared}
use omnigent_go_sdk.Stream.Runs.{Live, told, subscribe-Live, skipped-Live, deliver-Live}

module _ (opts : StreamOptions) (caller : Consumer Event) where
  take_frame-Live :
      (r : Reader) (name payload : Text) (frame : Frame)
      → byte_length payload ≤ max_frame_bytes
      → Reading opts caller r
      → r.subscribed ≡ true
      → Live opts caller (take_frame opts name payload r frame)
  unfolding take_frame
  take_frame-Live r name payload (unreadable err) small h e =
      let skip = first_of r.first_skip err in
      skipped-Live opts caller (record r { skipped = suc r.skipped; first_skip = skip })
        (record { name = name; payload = payload; err = err }) opts.on_skipped_frame r.skipped small
        (told opts caller r r.name r.payload r.subscribed r.calls (suc r.skipped) skip h.bounded
          h.hooks h)
        e
  take_frame-Live r name payload sentinel small h e = h
  take_frame-Live r name payload nothing_in small h e = (h, e)
  take_frame-Live r name payload (carries event) small h e = deliver-Live opts caller r event h e

  then_take-Live :
      (name payload : Text) (frame : Frame) (p : Progress)
      → byte_length payload ≤ max_frame_bytes
      → Live opts caller p
      → Live opts caller (then_take opts name payload frame p)
  then_take-Live name payload frame (reading r) small h =
      take_frame-Live r name payload frame small h.0 h.1
  then_take-Live name payload frame (saw_done r) small h = h
  then_take-Live name payload frame (over r) small h = h

  alive : (p : Progress) → Live opts caller p → Fine opts caller p
  alive (reading r) h = h.0
  alive (saw_done r) h = h
  alive (over r) h = h

  end_frame-Fine : (r : Reader) → Reading opts caller r → Fine opts caller (end_frame opts r)
  unfolding end_frame
  end_frame-Fine r h = alive (end_frame opts r) (
      then_take-Live r.name r.payload (decode_frame opts.json r.name r.payload)
        (subscribe opts (record r { name = []; payload = [] })) h.bounded
        (subscribe-Live opts caller (record r { name = []; payload = [] })
          (cleared opts caller r h)))

  extended :
      (payload chunk : Text)
      → byte_length payload + byte_length chunk + 1 ≤ max_frame_bytes
      → byte_length (if is_empty payload then chunk else payload ++ 10 ∷ chunk) ≤ max_frame_bytes
  unfolding byte_length rune_len
  extended [] chunk h = omega (arith, h)
  extended (c ∷ payload) chunk h = omega (arith, h, byte_length-append (c ∷ payload) (10 ∷ chunk))

  add_data-Fine :
      (r : Reader) (chunk : Text) → Reading opts caller r → Fine opts caller (add_data r chunk)
  unfolding add_data
  add_data-Fine r chunk h =
      if_intro (Fine opts caller)
        (ltb max_frame_bytes (byte_length r.payload + byte_length chunk + 1))
        (λ _. abort-Fine opts caller r stream_frame_too_large h)
        (λ fits.
          told opts caller r r.name (if is_empty r.payload then chunk else r.payload ++ 10 ∷ chunk)
            r.subscribed r.calls r.skipped r.first_skip
            (extended r.payload chunk (ground (arith, fits))) h.hooks h)

  pub read_line-Fine :
      (r : Reader) (line : Text) → Reading opts caller r → Fine opts caller (read_line opts r line)
  unfolding read_line
  read_line-Fine r line h =
      if_intro (Fine opts caller) (is_empty line) (λ _. end_frame-Fine r h)
        (λ _.
          if_intro (Fine opts caller) (has_prefix line (codes ":")) (λ _. h)
            (λ _.
              if_intro (Fine opts caller) (has_prefix line (codes "event:"))
                (λ _.
                  told opts caller r (trim_space (trim_prefix line (codes "event:"))) r.payload
                    r.subscribed r.calls r.skipped r.first_skip h.bounded h.hooks h)
                (λ _.
                  if_intro (Fine opts caller) (has_prefix line (codes "data:"))
                    (λ _.
                      add_data-Fine r (trim_prefix (trim_prefix line (codes "data:")) (codes " "))
                        h)
                    (λ _. h))))

  and_then-Fine :
      (f : Reader → Progress) (p : Progress)
      → ((r : Reader) → Reading opts caller r → Fine opts caller (f r))
      → Fine opts caller p
      → Fine opts caller (and_then f p)
  and_then-Fine f (reading r) k h = k r h
  and_then-Fine f (saw_done r) k h = h
  and_then-Fine f (over r) k h = h

  pub read_lines-Fine :
      (r : Reader) (lines : List Text)
      → Reading opts caller r
      → Fine opts caller (read_lines opts r lines)
  unfolding read_lines
  read_lines-Fine r [] h = h
  read_lines-Fine r (line ∷ lines) h =
      and_then-Fine (λ r'. read_lines opts r' lines) (read_line opts r line)
        (λ r' h'. read_lines-Fine r' lines h') (read_line-Fine r line h)
