-- ===== src/Sse/Stream.antt =====
-- The reader against the format of an event stream.
use spooled_sdk_go.Common.{
  ◌≡◌, refl, ap, ◌∙◌, false, ◌++◌, append_assoc, none, Text, List, [], ◌∷◌, map, lit, is_empty,
  has_prefix, trim_prefix, strip_prefix, if◌then◌else◌, All,
}
use spooled_sdk_go.Sse.{
  Reader, fresh_reader, event_field, data_field, read_line, read_lines, deliver,
}

-- An event as a server sends it: what follows `event:`, and what follows `data:` in each line of its
-- data, with the spaces that the server puts there.
pub record Message : Type 0 where
  pub name : Text
  pub first : Text
  pub rest : List Text

abbrev pub event_line : Text → Text
event_line name = event_field ++ name

abbrev pub data_line : Text → Text
data_line d = data_field ++ d

-- The lines of the message, with the empty line that ends it.
unfoldable pub lines_of : Message → List Text
lines_of m = event_line m.name ∷ data_line m.first ∷ (map data_line m.rest ++ [] ∷ [])

-- The data of the message: its lines, joined by newlines.
unfoldable pub join_lines : Text → List Text → Text
join_lines d [] = d
join_lines d (l ∷ ls) = join_lines ((d ++ lit "\n") ++ l) ls

-- What is read of it, by a function that trims spaces.
abbrev pub event_of : (Text → Text) → Message → Text × Text
event_of trim m = (trim m.name, join_lines (trim m.first) (map trim m.rest))

unfoldable pub stream_of : List Message → List Text
unfolding lines_of
stream_of [] = []
stream_of (m ∷ ms) = lines_of m ++ stream_of ms

module _ (trim_space : Text → Text) where
  read_line-event :
      (r : Reader) (name : Text)
      → read_line trim_space r (event_line name) ≡ (none, record r { event_type = trim_space name })
  unfolding read_line has_prefix trim_prefix strip_prefix lit
  read_line-event r name = refl

  read_line-data :
      (r : Reader) (d : Text)
      → read_line trim_space r (data_line d) ≡ (
        none,
        record r { data_ = (if is_empty r.data_ then [] else r.data_ ++ lit "\n") ++ trim_space d },
      )
  unfolding read_line has_prefix trim_prefix strip_prefix lit
  read_line-data r d = refl

  is_empty-append : (d x : Text) → is_empty d ≡ false → is_empty (d ++ x) ≡ false
  is_empty-append [] x h = cc
  is_empty-append (c ∷ d) x h = refl

  -- The lines of a message's data that follow the first.
  read_rest :
      (name d : Text) (ls more : List Text)
      → is_empty d ≡ false
      → read_lines trim_space
          (record { event_type = name; data_ = d })
          (map data_line ls ++ [] ∷ more)
        ≡ (name, join_lines d (map trim_space ls)) ∷ read_lines trim_space fresh_reader more
  unfolding read_lines join_lines
  read_rest name d [] more h = rw (h, read_line)
  read_rest name d (l ∷ ls) more h =
      rw (read_line-data (record { event_type = name; data_ = d }) l, h)
        (read_rest name ((d ++ lit "\n") ++ trim_space l) ls more
          (is_empty-append (d ++ lit "\n") (trim_space l) (is_empty-append d (lit "\n") h)))

  -- The first line of the data holds more than spaces.
  abbrev pub IsFilled : Message → Type 0
  IsFilled m = is_empty (trim_space m.first) ≡ false

  read_message :
      (m : Message) (more : List Text)
      → IsFilled m
      → read_lines trim_space fresh_reader (lines_of m ++ more)
        ≡ event_of trim_space m ∷ read_lines trim_space fresh_reader more
  unfolding read_lines lines_of
  read_message m more c = rw (read_line-event fresh_reader m.name) (
      rw (read_line-data (record { event_type = trim_space m.name; data_ = [] }) m.first)
        (rw append_assoc (read_rest (trim_space m.name) (trim_space m.first) m.rest more c)))

  -- A stream of messages is read as those messages' events, in order: each with its name, and with
  -- the lines of its data joined by newlines, all without the spaces round them.
  pub read_lines-stream_of :
      (ms : List Message)
      → All IsFilled ms
      → read_lines trim_space fresh_reader (stream_of ms) ≡ map (event_of trim_space) ms
  unfolding stream_of read_lines
  read_lines-stream_of [] c = refl
  read_lines-stream_of (m ∷ ms) c =
      read_message m (stream_of ms) c.0
      ∙ ap (λ es. event_of trim_space m ∷ es) (read_lines-stream_of ms c.1)

  read_line-comment : (r : Reader) (text : Text) → read_line trim_space r (b':' ∷ text) ≡ (none, r)
  unfolding read_line has_prefix strip_prefix lit
  read_line-comment r text = refl

  -- A comment, a line that begins with a colon, changes nothing wherever it stands.
  pub read_lines-comment :
      (r : Reader) (before after : List Text) (text : Text)
      → read_lines trim_space r (before ++ (b':' ∷ text) ∷ after)
        ≡ read_lines trim_space r (before ++ after)
  unfolding read_lines
  read_lines-comment r [] after text = rw (read_line-comment r text)
  read_lines-comment r (l ∷ before) after text =
      let (e, r') = read_line trim_space r l in
      ap (deliver e) (read_lines-comment r' before after text)

  -- The type of a message without data is kept, and given to the next message that names none.
  pub stale_event_type :
      (name d : Text) (more : List Text)
      → is_empty (trim_space d) ≡ false
      → read_lines trim_space fresh_reader (event_line name ∷ [] ∷ data_line d ∷ [] ∷ more)
        ≡ (trim_space name, trim_space d) ∷ read_lines trim_space fresh_reader more
  unfolding read_lines
  stale_event_type name d more h = rw (read_line-event fresh_reader name) (
      rw (read_line-data (record { event_type = trim_space name; data_ = [] }) d)
        (rw (h, read_line)))
