-- ===== src/Layer3/EventStream.antt =====
-- layer3/event_stream.go: the buffered stream of events, with its storage in memory. The buffer and
-- the subscribers' channels are Go channels: a list of what was sent and not received, with a bound
-- (1 at least for the buffer: an unbuffered one is not modelled). A channel is known by its number. `D` is the
-- type of the data of an event, its tags are only stored and left out, and the zero time is 0.
pub mod Order
pub mod Channels
pub mod Open
use aizo.Prelude.{
  ℕ, ◌+◌, String, Bool, true, false, not, ◌&&◌, Option, none, some, List, [], ◌∷◌, ◌++◌, Map, get,
  put, select, some_of, take, length, ltb, ◌==◌, string_eq, nat_eq, if◌then◌else◌,
}
use aizo.Prelude.Int.{ℤ, pos, negsuc}

pub record Event (D : Type 0) : Type 0 where
  pub id : String
  pub event_type : String
  pub entity_id : String
  pub timestamp : ℕ
  pub source : String
  pub severity : String
  pub message : String
  pub content : D

pub record Channel (D : Type 0) : Type 0 where
  pub queue : List (Event D)
  pub closed : Bool

-- The stream, its storage, the channels that were made, and whether a send hit a closed channel, at
-- which the program would panic.
pub record EventStream (D : Type 0) : Type 0 where
  pub buffer_size : ℕ
  pub buffer : List (Event D)
  pub subscribers : Map String (List ℕ)
  pub channels : ℕ → Channel D
  pub next : ℕ
  pub events : List (Event D)
  pub panicked : Bool

pub data Error : Type 0 where
  buffer_full : Error

abbrev pub subscriber_size : ℕ
subscriber_size = 100

abbrev pub without : ℕ → List ℕ → List ℕ
without ch [] = []
without ch (c ∷ cs) = let rest = without ch cs in if c == ch then cs else c ∷ rest

pub record QueryRequest : Type 0 where
  pub entity_id : String
  pub start_time : ℕ
  pub end_time : ℕ
  pub limit : ℤ
  pub type_filter : Option String
  pub severity_filter : Option String

abbrev filtered : Option String → String → Bool
filtered none x = true
filtered (some y) x = x == y

module _ {D : Type 0} where
  unfoldable pub new_event_stream : ℕ → EventStream D
  new_event_stream size = record {
    buffer_size = size;
    buffer = [];
    subscribers = [];
    channels = λ n. record { queue = []; closed = false };
    next = 0;
    events = [];
    panicked = false;
  }

  -- The event as it is sent: with an id and a time.
  abbrev pub completed : Event D → String → ℕ → Event D
  completed e id now = record e {
    id = if e.id == "" then id else e.id;
    timestamp = if e.timestamp == 0 then now else e.timestamp;
  }

  unfoldable pub publish : EventStream D → Event D → String → ℕ → EventStream D × Option Error
  publish s e id now =
      if ltb (length s.buffer) s.buffer_size
      then (record s { buffer = s.buffer ++ (completed e id now ∷ []) }, none)
      else (s, some buffer_full)

  unfoldable pub publish_state_change :
      EventStream D → String → String → String → D → String → ℕ → EventStream D × Option Error
  unfolding publish
  publish_state_change s entity source message content id now =
      publish s
        (record {
          id = "";
          event_type = "state_change";
          entity_id = entity;
          timestamp = 0;
          source = source;
          severity = "info";
          message = message;
          content = content;
        })
        id now

  unfoldable pub publish_alert :
      EventStream D
      → String
      → String
      → String
      → String
      → D
      → String
      → ℕ
      → EventStream D × Option Error
  unfolding publish
  publish_alert s entity source severity message content id now =
      publish s
        (record {
          id = "";
          event_type = "alert";
          entity_id = entity;
          timestamp = 0;
          source = source;
          severity = severity;
          message = message;
          content = content;
        })
        id now

  abbrev pub channels_of : EventStream D → String → List ℕ
  channels_of s entity = elim (get entity s.subscribers) [ none ↦ [] | some chs ↦ chs ]

  abbrev pub set_channel : ℕ → Channel D → EventStream D → EventStream D
  set_channel ch c s = record s { channels = λ n. if n == ch then c else s.channels n }

  unfoldable pub subscribe : EventStream D → String → EventStream D × ℕ
  subscribe s entity = (
    record s {
      subscribers = put entity (channels_of s entity ++ (s.next ∷ [])) s.subscribers;
      channels = λ n. if n == s.next then record { queue = []; closed = false } else s.channels n;
      next = s.next + 1;
    },
    s.next,
  )

  unfoldable pub unsubscribe : EventStream D → String → ℕ → EventStream D
  unsubscribe s entity ch =
      if some_of (λ c. c == ch) (channels_of s entity)
      then set_channel ch (record (s.channels ch) { closed = true })
          (record s { subscribers = put entity (without ch (channels_of s entity)) s.subscribers })
      else s

  -- `select { case ch <- event: default: }`
  unfoldable pub send : Event D → ℕ → EventStream D → EventStream D
  send e ch s =
      if (s.channels ch).closed
      then record s { panicked = true }
      else (if ltb (length (s.channels ch).queue) subscriber_size
          then set_channel ch (record (s.channels ch) { queue = (s.channels ch).queue ++ (e ∷ []) })
              s
          else s)

  unfoldable pub send_all : Event D → List ℕ → EventStream D → EventStream D
  unfolding send
  send_all e [] s = s
  send_all e (ch ∷ chs) s = send_all e chs (send e ch s)

  unfoldable pub notify_subscribers : EventStream D → Event D → EventStream D
  unfolding send_all
  notify_subscribers s e =
      let s' = send_all e (channels_of s e.entity_id) s in send_all e (channels_of s "*") s'

  -- One round of the loop of `processBuffer`; with an empty buffer it waits.
  unfoldable pub process : EventStream D → EventStream D
  unfolding notify_subscribers
  process s = elim (s.buffer) [
    | [] ↦ s
    | e ∷ rest ↦ notify_subscribers (record s { buffer = rest; events = s.events ++ (e ∷ []) }) e
  ]

  -- A subscriber takes the first event of its channel.
  unfoldable pub receive : EventStream D → ℕ → EventStream D × Option (Event D)
  receive s ch = elim ((s.channels ch).queue) [
    | [] ↦ (s, none)
    | e ∷ rest ↦ (set_channel ch (record (s.channels ch) { queue = rest }) s, some e)
  ]

  unfoldable pub matches_query : Event D → QueryRequest → Bool
  matches_query e req =
      not (not (req.entity_id == "") && not (e.entity_id == req.entity_id))
      && not (not (req.start_time == 0) && ltb e.timestamp req.start_time)
      && not (not (req.end_time == 0) && ltb req.end_time e.timestamp)
      && filtered req.type_filter e.event_type
      && filtered req.severity_filter e.severity

  limited : ℤ → List (Event D) → List (Event D)
  limited (negsuc n) es = es
  limited (pos n) es = if ltb 0 n && ltb n (length es) then take n es else es

  unfoldable pub query_events : EventStream D → QueryRequest → List (Event D)
  unfolding matches_query limited
  query_events s req = limited req.limit (select (λ e. matches_query e req) s.events)
