-- ===== src/Services/Kafka/Defs.antt =====
-- services/kafka/service.go: Service, Config, New, Start and Stop.
use bandmaster.Services.Assertions.{Interface, AssertionPanic, field_of}
use bandmaster.Base.{
  String, Bool, true, false, Option, none, some, List, [], ◌∷◌, ◌&&◌, not, ◌==◌, pure, ◌>>=◌, ◌>>◌,
  Outcome,
}
use bandmaster.Services.Calls.{Call, Code, run, set_service}

pub record Config (ClusterConf : Type 0) : Type 0 where
  pub cluster_conf : ClusterConf
  pub addrs : List String
  pub consumer_topics : List String
  pub consumer_group_id : String

-- `running` is the context of the service, until its canceller is called.
pub record Service (ClusterConf Consumer Producer : Type 0) : Type 0 where
  pub running : Bool
  pub conf : Config ClusterConf
  pub c : Option Consumer
  pub p : Option Producer

-- What the service uses of sarama and sarama-cluster. The code stores whatever these return.
pub record Library (W ClusterConf Consumer Producer : Type 0) : Type 0 where
  pub validate : ClusterConf → Option String
  pub new_consumer :
      List String → String → List String → ClusterConf → Call W (Option Consumer × Option String)
  pub new_producer : List String → ClusterConf → Call W (Option Producer × Option String)
  pub close_consumer : Consumer → Call W (Option String)
  pub close_producer : Producer → Call W (Option String)

module _ {ClusterConf Consumer Producer : Type 0} where
  unfoldable pub new : Config ClusterConf → Service ClusterConf Consumer Producer
  new conf = record { running = true; conf = conf; c = none; p = none }

  abbrev pub set_consumer :
      Option Consumer
      → Service ClusterConf Consumer Producer
      → Service ClusterConf Consumer Producer
  set_consumer c s = record s { c = c }

  abbrev pub set_producer :
      Option Producer
      → Service ClusterConf Consumer Producer
      → Service ClusterConf Consumer Producer
  set_producer p s = record s { p = p }

abbrev pub is_empty : {A : Type 0} → List A → Bool
is_empty [] = true
is_empty (x ∷ xs) = false

-- `len(ConsumerGroupID) > 0 && len(ConsumerTopics) > 0`
unfoldable pub wants_consumer : {ClusterConf : Type 0} → Config ClusterConf → Bool
wants_consumer conf = not (conf.consumer_group_id == "") && not (is_empty conf.consumer_topics)

module _ {ClusterConf Consumer Producer : Type 0} where
  unfoldable pub consumer :
      Interface (Service ClusterConf Consumer Producer) → Outcome AssertionPanic (Option Consumer)
  consumer = field_of (λ s. s.c)

  unfoldable pub producer :
      Interface (Service ClusterConf Consumer Producer) → Outcome AssertionPanic (Option Producer)
  producer = field_of (λ s. s.p)

  unfoldable pub conf :
      Interface (Service ClusterConf Consumer Producer)
      → Outcome AssertionPanic (Config ClusterConf)
  conf = field_of (λ s. s.conf)

module _ {W ClusterConf Consumer Producer : Type 0}
    (lib : Library W ClusterConf Consumer Producer) where
  -- What follows a call with the given error: return it, or go on.
  unfoldable pub or_return :
      Code W (Service ClusterConf Consumer Producer) (Option String)
      → Option String
      → Code W (Service ClusterConf Consumer Producer) (Option String)
  or_return next (some err) = pure (some err)
  or_return next none = next

  unfoldable pub open_producer :
      Option Producer → Code W (Service ClusterConf Consumer Producer) (Option String)
  open_producer (some p) st = pure none st
  open_producer none st =
      (run (lib.new_producer st.0.conf.addrs st.0.conf.cluster_conf) >>= λ r. do
        set_service (set_producer r.0)
        or_return (pure none) r.1)
        st

  abbrev pub start_producer : Code W (Service ClusterConf Consumer Producer) (Option String)
  start_producer st = open_producer st.0.p st

  unfoldable pub open_consumer :
      Option Consumer → Bool → Code W (Service ClusterConf Consumer Producer) (Option String)
  open_consumer (some c) wanted = start_producer
  open_consumer none false = start_producer
  open_consumer none true = λ st.
      (run (
            lib.new_consumer st.0.conf.addrs st.0.conf.consumer_group_id st.0.conf.consumer_topics
              st.0.conf.cluster_conf)
          >>= λ r. do set_service (set_consumer r.0); or_return start_producer r.1)
        st

  unfoldable pub start : Code W (Service ClusterConf Consumer Producer) (Option String)
  start st =
      or_return (λ st. open_consumer st.0.c (wants_consumer st.0.conf) st)
        (lib.validate st.0.conf.cluster_conf) st

  unfoldable pub close_producer :
      Option Producer → Code W (Service ClusterConf Consumer Producer) (Option String)
  close_producer none = pure none
  close_producer (some p) = run (lib.close_producer p) >>= λ err.
      or_return (do set_service (set_consumer none); pure none) err

  abbrev pub stop_producer : Code W (Service ClusterConf Consumer Producer) (Option String)
  stop_producer st = close_producer st.0.p st

  unfoldable pub close_consumer :
      Option Consumer → Code W (Service ClusterConf Consumer Producer) (Option String)
  close_consumer none = stop_producer
  close_consumer (some c) = run (lib.close_consumer c) >>= λ err.
      or_return (do set_service (set_consumer none); stop_producer) err

  unfoldable pub stop : Code W (Service ClusterConf Consumer Producer) (Option String)
  stop = do set_service λ s. record s { running = false }; λ st. close_consumer st.0.c st
