-- ===== src/Stream/Printed.antt =====
-- stream.go: a server's side of the event stream, and the reader on the lines it prints.
use omnigent_go_sdk.Prelude.{
  ◌+◌, ◌≤◌, ◌≡◌, refl, sym, ap, subst, ◌∙◌, Bool, true, false, List, [], ◌∷◌, ◌++◌, none, is_empty,
  true≢false, ltb, arith, append_assoc, if◌then◌else◌,
}
use omnigent_go_sdk.Prelude.Text.{
  Text, byte_length, byte_length-append, rune_len, codes, has_prefix, trim_prefix, trim_space,
  trim_left, is_space,
}
use omnigent_go_sdk.Errors.{stream_frame_too_large}
use omnigent_go_sdk.Wire.{Event}
use omnigent_go_sdk.Sequence.{Step, Consumer}
use omnigent_go_sdk.Decode.{Json}
use omnigent_go_sdk.Stream.{
  max_frame_bytes, carries, decode_frame, StreamOptions, HookCall, Reader, Progress, reading,
  saw_done, over, add_data, abort, read_line, and_then, read_lines,
}

-- A frame of the server: the name of its event, the lines of its payload and what they mean.
pub record Sent : Type 0 where
  pub name : Text
  pub line : Text
  pub lines : List Text
  pub event : Event

-- The lines of a payload as one text.
abbrev pub join : Text → List Text → Text
join line [] = line
join line (next ∷ lines) = line ++ 10 ∷ join next lines

abbrev pub data_lines : List Text → List Text
data_lines [] = []
data_lines (line ∷ lines) = (codes "data: " ++ line) ∷ data_lines lines

abbrev pub print_frame : Sent → List Text
print_frame f =
    (codes "event: " ++ f.name) ∷ (codes "data: " ++ f.line) ∷ data_lines f.lines ++ [] ∷ []

abbrev pub print_stream : List Sent → List Text
print_stream [] = (codes "data: [DONE]") ∷ [] ∷ []
print_stream (f ∷ fs) = print_frame f ++ print_stream fs

-- A frame that fits, and that decodes to its event.
pub record Readable (json : Json) (f : Sent) : Type 0 where
  pub some_data : is_empty f.line ≡ false
  pub fits : byte_length (join f.line f.lines) + 1 ≤ max_frame_bytes
  pub decodes : decode_frame json (trim_space f.name) (join f.line f.lines) ≡ carries f.event

pub event_line :
    (opts : StreamOptions) (r : Reader) (name : Text)
    → read_line opts r (codes "event: " ++ name) ≡ reading (record r { name = trim_space name })
unfolding read_line codes has_prefix trim_prefix trim_space trim_left is_space
event_line opts r name = refl

data_line :
    (opts : StreamOptions) (r : Reader) (line : Text)
    → read_line opts r (codes "data: " ++ line) ≡ add_data r line
unfolding read_line codes has_prefix trim_prefix
data_line opts r line = refl

within :
    (r : Reader) (chunk : Text)
    → byte_length r.payload + byte_length chunk + 1 ≤ max_frame_bytes
    → add_data r chunk
      ≡ reading
          (record r { payload = (if is_empty r.payload then chunk else r.payload ++ 10 ∷ chunk) })
unfolding add_data
within r chunk h =
    ap
      (λ (b : Bool).
        if b
        then abort r stream_frame_too_large
        else reading (record r {
          payload = (if is_empty r.payload then chunk else r.payload ++ 10 ∷ chunk);
        }))
      (the_test (ltb max_frame_bytes (byte_length r.payload + byte_length chunk + 1))
        (ground (arith, h)))
  where
    the_test : (b : Bool) → b ≡ false → b ≡ false
    the_test b e = e

join-append : (p q : Text) (lines : List Text) → join (p ++ q) lines ≡ p ++ join q lines
join-append p q [] = refl
join-append p q (line ∷ lines) = append_assoc p q (10 ∷ join line lines)

pub read_lines-append :
    (opts : StreamOptions) (r : Reader) (xs ys : List Text)
    → read_lines opts r (xs ++ ys) ≡ and_then (λ r'. read_lines opts r' ys) (read_lines opts r xs)
unfolding read_lines
read_lines-append opts r [] ys = refl
read_lines-append opts r (x ∷ xs) ys =
    later (read_line opts r x) (λ r'. read_lines opts r' xs) (λ r'. read_lines opts r' ys)
      (λ r'. read_lines opts r' (xs ++ ys)) (λ r'. read_lines-append opts r' xs ys)
  where
    later :
        (p : Progress) (f g k : Reader → Progress)
        → ((r' : Reader) → k r' ≡ and_then g (f r'))
        → and_then k p ≡ and_then g (and_then f p)
    later (reading r) f g k h = h r
    later (saw_done r) f g k h = refl
    later (over r) f g k h = refl

grown : (p line : Text) (lines : List Text) → join (p ++ 10 ∷ line) lines ≡ join p (line ∷ lines)
grown p line lines =
    join-append p (10 ∷ line) lines ∙ ap (λ (q : Text). p ++ q) (join-append (10 ∷ []) line lines)

line_within : (line : Text) (lines : List Text) → byte_length line ≤ byte_length (join line lines)
line_within line [] = omega arith
line_within line (next ∷ lines) = omega (arith, byte_length-append line (10 ∷ join next lines))

fits_so_far :
    (p line : Text) (lines : List Text)
    → byte_length (join p (line ∷ lines)) + 1 ≤ max_frame_bytes
    → byte_length p + byte_length line + 1 ≤ max_frame_bytes
unfolding byte_length rune_len
fits_so_far p line lines h =
    omega (arith, h, line_within line lines, byte_length-append p (10 ∷ join line lines))

-- The reader between two frames, and within one.
abbrev pub patient : Consumer Event
patient out = true

abbrev pub at : List (Step Event) → Bool → List HookCall → Bool → (name payload : Text) → Reader
at out subscribed calls delivered name payload = record {
  yield = patient;
  out = out;
  stopped = false;
  calls = calls;
  name = name;
  payload = payload;
  subscribed = subscribed;
  delivered = delivered;
  skipped = 0;
  first_skip = none;
}

not_empty_append : (p q : Text) → is_empty p ≡ false → is_empty (p ++ q) ≡ false
not_empty_append (c ∷ p) q h = refl
not_empty_append [] q h = absurd (true≢false h)

module _ (opts : StreamOptions) (out : List (Step Event)) (b : Bool) (calls : List HookCall)
    (d : Bool) (name : Text) where
  next_line :
      (p line : Text)
      → is_empty p ≡ false
      → byte_length p + byte_length line + 1 ≤ max_frame_bytes
      → read_line opts (at out b calls d name p) (codes "data: " ++ line)
        ≡ reading (at out b calls d name (p ++ 10 ∷ line))
  next_line p line full h =
      data_line opts (at out b calls d name p) line
      ∙ within (at out b calls d name p) line h
      ∙ ap (λ (e : Bool). reading (at out b calls d name (if e then line else p ++ 10 ∷ line))) full

  more_lines :
      (p : Text) (lines : List Text)
      → is_empty p ≡ false
      → byte_length (join p lines) + 1 ≤ max_frame_bytes
      → read_lines opts (at out b calls d name p) (data_lines lines)
        ≡ reading (at out b calls d name (join p lines))
  unfolding read_lines
  more_lines p [] full h = refl
  more_lines p (line ∷ lines) full h =
      ap (and_then (λ r. read_lines opts r (data_lines lines)))
        (next_line p line full (fits_so_far p line lines h))
      ∙ more_lines (p ++ 10 ∷ line) lines (not_empty_append p (10 ∷ line) full)
          (subst (λ (q : Text). byte_length q + 1 ≤ max_frame_bytes) (sym (grown p line lines)) h)
      ∙ ap (λ (q : Text). reading (at out b calls d name q)) (grown p line lines)

  pub all_lines :
      (line : Text) (lines : List Text)
      → is_empty line ≡ false
      → byte_length (join line lines) + 1 ≤ max_frame_bytes
      → read_lines opts (at out b calls d name []) (data_lines (line ∷ lines))
        ≡ reading (at out b calls d name (join line lines))
  unfolding read_lines byte_length
  all_lines line lines full h =
      ap (and_then (λ r. read_lines opts r (data_lines lines))) (
        data_line opts (at out b calls d name []) line
        ∙ within (at out b calls d name []) line (omega (arith, h, line_within line lines)))
      ∙ more_lines line lines full h
