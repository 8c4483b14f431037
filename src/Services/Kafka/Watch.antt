-- ===== src/Services/Kafka/Watch.antt =====
-- services/kafka/helpers.go: the goroutines that watch the events of a consumer or of a producer.
use bandmaster.Base.{
  ℕ, ◌+◌, ◌%◌, ◌^◌, String, Bool, true, false, Option, none, some, List, [], ◌∷◌, ◌++◌, Outcome,
  returned, panicked, blocked, Exec, pure, ◌>>◌, if◌then◌else◌,
}
use bandmaster.Base.Family.{update}
use bandmaster.Errors.{Err}
use bandmaster.Channel.{Chan, send, close, receive}
use bandmaster.ServiceBase.{Object, started_channel}
use bandmaster.Goroutines.{set_chan}

-- The flags of the service's configuration, and the goroutines that they ask for.
pub record Returns : Type 0 where
  pub group_notifications : Bool
  pub consumer_errors : Bool
  pub producer_errors : Bool
  pub producer_successes : Bool

pub data Loop : Type 0 where
  notifications_loop : Loop
  consumer_errors_loop : Loop
  producer_errors_loop : Loop
  producer_successes_loop : Loop

unfoldable pub loop_if : Bool → Loop → List Loop
loop_if asked loop = if asked then loop ∷ [] else []

-- Behind `<-ss.Started()`: the error, and the goroutines launched.
unfoldable pub launch_if_started :
    List Loop
    → ℕ
    → Object
    → Outcome Err (Option Err × Chan)
    → Outcome Err (Option Err × List Loop) × Object
launch_if_started loops c o (returned (none, ch)) = (returned (none, loops), set_chan o c ch)
launch_if_started loops c o (returned (some err, ch)) = (returned (some err, []), set_chan o c ch)
launch_if_started loops c o (panicked e) = (panicked e, o)
launch_if_started loops c o blocked = (blocked, o)

-- The context is not used.
unfoldable pub watch_consumer_events : Returns → Exec Err Object (Option Err × List Loop)
watch_consumer_events r before =
    let (c, o) = started_channel before in
    launch_if_started
      (loop_if r.group_notifications notifications_loop
        ++ loop_if r.consumer_errors consumer_errors_loop)
      c o (receive (o.chans c))

unfoldable pub watch_producer_events : Returns → Exec Err Object (Option Err × List Loop)
watch_producer_events r before =
    let (c, o) = started_channel before in
    launch_if_started
      (loop_if r.producer_errors producer_errors_loop
        ++ loop_if r.producer_successes producer_successes_loop)
      c o (receive (o.chans c))

-- What the `select` of a loop takes: the end of the context, the end of the events, or an event.
pub data Event (A : Type 0) : Type 0 where
  done : Event A
  ended : Event A
  got : A → Event A

-- Partitions by topic; a partition is an int32 by its bits.
pub record Notification : Type 0 where
  pub claimed : List (String × List ℕ)
  pub released : List (String × List ℕ)
  pub current : List (String × List ℕ)

-- A line of the log for a topic.
pub record Line : Type 0 where
  pub verb : String
  pub cycle : ℕ
  pub topic : String
  pub partitions : List ℕ

unfoldable pub notify : String → ℕ → List (String × List ℕ) → List Line
notify verb cycle [] = []
notify verb cycle ((topic, parts) ∷ rest) =
    record { verb = verb; cycle = cycle; topic = topic; partitions = parts }
    ∷ notify verb cycle rest

unfoldable pub notify_all : ℕ → Notification → List Line
notify_all cycle n =
    notify "requested" cycle n.claimed
    ++ notify "released" cycle n.released
    ++ notify "claimed" cycle n.current

-- `nbCycle` is a uint64, which counts the notifications.
unfoldable pub notifications : ℕ → List (Event Notification) → List Line
notifications cycle [] = []
notifications cycle (done ∷ events) = []
notifications cycle (ended ∷ events) = []
notifications cycle (got n ∷ events) =
    notify_all cycle n ++ notifications ((cycle + 1) % 2 ^ 64) events

-- An error of the consumer: sarama's `*ConsumerError`, which knows its partition, or another one.
pub data ConsumerFault : Type 0 where
  of_partition : (text topic : String) (partition : ℕ) → ConsumerFault
  other_fault : (text : String) → ConsumerFault

-- A line of the log for it: the text, with the topic and the partition if they are known.
unfoldable pub consumer_line : ConsumerFault → String × Option (String × ℕ)
consumer_line (of_partition text topic partition) = (text, some (topic, partition))
consumer_line (other_fault text) = (text, none)

unfoldable pub consumer_errors : List (Event ConsumerFault) → List (String × Option (String × ℕ))
consumer_errors [] = []
consumer_errors (done ∷ events) = []
consumer_errors (ended ∷ events) = []
consumer_errors (got fault ∷ events) = consumer_line fault ∷ consumer_errors events

-- A message of the producer. `metadata` is the address of the `chan<- error` that it carries, if
-- what it carries is one.
pub record Message : Type 0 where
  pub metadata : Option ℕ
  pub topic : String
  pub partition : ℕ
  pub offset : ℕ
  pub key : String

pub record ProducerError : Type 0 where
  pub msg : Message
  pub err : Err

-- The channels of the callers, and the messages in the log, with the error if there is one.
pub record Watched : Type 0 where
  pub chans : ℕ → Chan
  pub log : List (Message × Option Err)

unfoldable pub on_channel : ℕ → (Chan → Outcome Err Chan) → Exec Err Watched (Unit {0})
on_channel c f w = elim (f (w.chans c)) [
  | returned ch ↦ (returned tt, record w { chans = update w.chans c ch })
  | panicked e ↦ (panicked e, w)
  | blocked ↦ (blocked, w)
]

unfoldable pub write_log : Message → Option Err → Exec Err Watched (Unit {0})
write_log msg err w = (returned tt, record w { log = w.log ++ (msg, err) ∷ [] })

-- The body of the loop over the errors, and of that over the successes.
unfoldable pub tell_error : Message → Err → Option ℕ → Exec Err Watched (Unit {0})
tell_error msg err (some c) = on_channel c (send err)
tell_error msg err none = write_log msg (some err)

unfoldable pub tell_success : Message → Option ℕ → Exec Err Watched (Unit {0})
tell_success msg (some c) = on_channel c close
tell_success msg none = write_log msg none

-- The two loops of WatchProducerEvents interleave: an event is one of the loop over the errors or
-- one of the loop over the successes.
pub data Delivery : Type 0 where
  of_errors : Event ProducerError → Delivery
  of_successes : Event Message → Delivery

-- `errors` and `successes` say which of the loops still run; a loop that has ended takes no event.
unfoldable pub watch_producer :
    (errors successes : Bool) → List Delivery → Exec Err Watched (Unit {0})
watch_producer errors successes [] = pure tt
watch_producer true successes (of_errors (got e) ∷ rest) =
    tell_error e.msg e.err e.msg.metadata >> watch_producer true successes rest
watch_producer true successes (of_errors done ∷ rest) = watch_producer false successes rest
watch_producer true successes (of_errors ended ∷ rest) = watch_producer false successes rest
watch_producer false successes (of_errors event ∷ rest) = watch_producer false successes rest
watch_producer errors true (of_successes (got msg) ∷ rest) =
    tell_success msg msg.metadata >> watch_producer errors true rest
watch_producer errors true (of_successes done ∷ rest) = watch_producer errors false rest
watch_producer errors true (of_successes ended ∷ rest) = watch_producer errors false rest
watch_producer errors false (of_successes event ∷ rest) = watch_producer errors false rest
