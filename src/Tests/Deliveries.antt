-- ===== src/Tests/Deliveries.antt =====
-- Two messages of a producer: one fails, and one is pushed.
use bandmaster.Base.{ℕ, true, refl, some, none, [], ◌∷◌, List, arith}
use bandmaster.Channel.{make}
use bandmaster.Services.Kafka.Watch.{
  Message, Watched, Delivery, of_errors, of_successes, got, watch_producer,
}
use bandmaster.Services.Kafka.Deliveries.{IsDelivered, watch_producer-IsDelivered}
use bandmaster.Tests.Data.{oops}

abbrev message : ℕ → Message
message c = record { metadata = some c; topic = "t"; partition = 0; offset = 7; key = "k" }

abbrev silent : Message
silent = record { metadata = none; topic = "t"; partition = 0; offset = 8; key = "k" }

abbrev deliveries : List Delivery
deliveries =
    of_successes (got (message 4))
    ∷ of_successes (got silent)
    ∷ of_errors (got (record { msg = message 2; err = oops }))
    ∷ []

abbrev watched : Watched
watched = record { chans = λ c. make 1; log = [] }

watch_producer-IsDelivered_example :
    IsDelivered deliveries watched.chans (watch_producer true true deliveries watched)
watch_producer-IsDelivered_example =
    watch_producer-IsDelivered deliveries watched (tt, (tt, (tt, tt)))
      ((λ e. omega (arith, e), tt), (tt, tt)) ((refl, omega arith), ((refl, omega arith), tt))
