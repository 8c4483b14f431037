-- ===== src/Tests/Readies.antt =====
-- ServiceReady on a service whose first start fails and whose second succeeds.
use bandmaster.Base.{◌≡◌, refl, ◌⊎◌, inl, some, true, none, [], ◌∷◌, List, In}
use bandmaster.Base.Dict.{lookup}
use bandmaster.Channel.{send, close, receive}
use bandmaster.ServiceBase.{
  new_service_base, start, started_channel, stopped_channel, allocate, each, at_channel,
}
use bandmaster.Registry.{Maestro}
use bandmaster.Ready.{
  Turn, starts, tries, watches_stop, found, service_ready, wait_ready, turn, received,
  unless_answered,
}
use bandmaster.Ready.Answers.{service_ready-IsStarted, wait_ready-answers, tries_times}
use bandmaster.Tests.Data.{oops, watched, watched-IsValid}

abbrev turns : List Turn
turns = starts (some oops) ∷ tries ∷ watches_stop ∷ starts none ∷ tries ∷ []

abbrev services : Maestro
services = ("a", 0) ∷ []

service_ready-IsStarted_example :
    (lookup "a" services ≡ some 0) × ((watched.started ≡ true) ⊎ In (starts none) turns)
unfolding lookup service_ready wait_ready turn received unless_answered start started_channel
    new_service_base allocate each at_channel send close receive stopped_channel
service_ready-IsStarted_example =
    service_ready-IsStarted "a" turns services (λ s. watched) 0 (λ s. watched-IsValid) refl

-- The subscriber of `watched` has nothing to read before the start.
wait_ready-answers_example : (wait_ready 7 0 (starts none ∷ tries_times 1) watched).0 ≡ found 7
unfolding started_channel new_service_base allocate
wait_ready-answers_example = wait_ready-answers 7 0 watched watched-IsValid refl (inl refl)
