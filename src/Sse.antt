-- ===== src/Sse.antt =====
-- The reader of spooled/realtime/sse.go: the lines of a stream of server-sent events. Lines are those
-- of `bufio.Scanner`; `trim_space` is `strings.TrimSpace`, a parameter for its table of Unicode spaces.
pub mod Stream
pub mod Received
pub mod Url
use spooled_sdk_go.Common.{
  ℕ, Bool, true, false, not, ◌&&◌, ◌++◌, Option, none, some, Text, List, [], ◌∷◌, lit, is_empty,
  has_prefix, trim_prefix, if◌then◌else◌,
}

-- The local variables of `readLoop`.
pub record Reader : Type 0 where
  pub event_type : Text
  pub data_ : Text

abbrev pub fresh_reader : Reader
fresh_reader = record { event_type = []; data_ = [] }

abbrev pub event_field : Text
event_field = lit "event:"

abbrev pub data_field : Text
data_field = lit "data:"

abbrev pub deliver : Option (Text × Text) → List (Text × Text) → List (Text × Text)
deliver none es = es
deliver (some e) es = e ∷ es

module _ (trim_space : Text → Text) where
  -- What one line does: the event that it completes, if any, and the variables after it.
  unfoldable pub read_line : Reader → Text → Option (Text × Text) × Reader
  read_line r line =
      if is_empty line
      then (if is_empty r.data_ then (none, r) else (some (r.event_type, r.data_), fresh_reader))
      else if has_prefix event_field line
      then (none, record r { event_type = trim_space (trim_prefix event_field line) })
      else if has_prefix data_field line
      then (
        none,
        record r {
          data_ =
              (if is_empty r.data_ then [] else r.data_ ++ lit "\n")
              ++ trim_space (trim_prefix data_field line);
        },
      )
      else (none, r)

  -- The loop: the events that are handled, in order.
  unfoldable pub read_lines : Reader → List Text → List (Text × Text)
  unfolding read_line
  read_lines r [] = []
  read_lines r (line ∷ lines) = let (e, r') = read_line r line in deliver e (read_lines r' lines)

-- The type, the time of reception where the data is no JSON, and the data of an `Event`.
pub record Event : Type 0 where
  pub type_ : Text
  pub timestamp : Option ℕ
  pub data_ : Text

-- `handleSSEEvent` up to the dispatch: `unmarshal` is `json.Unmarshal` into an `Event`.
unfoldable pub handle_sse_event : (Text → Option Event) → ℕ → Text → Text → Event
handle_sse_event unmarshal now event_type d =
    let event : Event = elim (unmarshal d) [
      | some e ↦ e
      | none ↦ record { type_ = event_type; timestamp = some now; data_ = d }
    ] in
    if not (is_empty event_type) && is_empty event.type_
    then record event { type_ = event_type }
    else event
