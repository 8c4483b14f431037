-- ===== src/Services/Kafka/Lifecycle.antt =====
-- services/kafka/service.go: Start and Stop.
use bandmaster.Base.{
  String, Bool, true, false, Option, none, some, ◌≡◌, refl, Outcome, returned, ◌⊎◌, inl, inr, List,
}
use bandmaster.Services.Client.{IsEither}
use bandmaster.Services.Kafka.{
  Service, Library, set_consumer, set_producer, wants_consumer, or_return, open_producer,
  start_producer, open_consumer, start, close_producer, stop_producer, close_consumer, stop,
}

module _ {W ClusterConf Consumer Producer : Type 0}
    (lib : Library W ClusterConf Consumer Producer) where
  abbrev Kafka : Type 0
  Kafka = Service ClusterConf Consumer Producer

  abbrev Ran : Type 0
  Ran = Outcome String (Option String) × (Kafka × W)

  -- What `Stop` leaves: the producer as it was and, if it returned nil, no consumer.
  abbrev Ended : Option Producer → Ran → Type 0
  Ended p r = (r.1.0.p ≡ p) × (r.0 ≡ returned none → r.1.0.c ≡ none)

  closed_producer-Ended :
      (err : Option String) (s : Kafka) (w : W)
      → s.c ≡ none
      → Ended s.p (or_return lib (λ st. (returned none, (set_consumer none st.0, st.1))) err (s, w))
  unfolding or_return
  closed_producer-Ended (some e) s w h = (refl, λ ok. h)
  closed_producer-Ended none s w h = (refl, λ ok. refl)

  close_producer-Ended :
      (p : Option Producer) (s : Kafka) (w : W)
      → s.c ≡ none
      → Ended s.p (close_producer lib p (s, w))
  unfolding close_producer
  close_producer-Ended none s w h = (refl, λ ok. h)
  close_producer-Ended (some p) s w h =
      closed_producer-Ended (lib.close_producer p w).0 s (lib.close_producer p w).1 h

  closed_consumer-Ended :
      (err : Option String) (s : Kafka) (w : W)
      → Ended s.p
          (or_return lib (λ st. stop_producer lib (set_consumer none st.0, st.1)) err (s, w))
  unfolding or_return
  closed_consumer-Ended (some e) s w = (refl, λ ok. cc)
  closed_consumer-Ended none s w = close_producer-Ended s.p (set_consumer none s) w refl

  close_consumer-Ended :
      (c : Option Consumer) (s : Kafka) (w : W) → s.c ≡ c → Ended s.p (close_consumer lib c (s, w))
  unfolding close_consumer
  close_consumer-Ended none s w h = close_producer-Ended s.p s w h
  close_consumer-Ended (some c) s w h =
      closed_consumer-Ended (lib.close_consumer c w).0 s (lib.close_consumer c w).1

  -- `Stop` never takes the producer out of the service: it is the one from before, also when the
  -- producer was closed and nil is returned.
  pub stop-keeps_producer : (s : Kafka) (w : W) → (stop lib (s, w)).1.0.p ≡ s.p
  unfolding stop
  stop-keeps_producer s w = (close_consumer-Ended s.c (record s { running = false }) w refl).0

  -- When `Stop` returns nil the service has no consumer.
  pub stop-drops_consumer :
      (s : Kafka) (w : W) → (stop lib (s, w)).0 ≡ returned none → (stop lib (s, w)).1.0.c ≡ none
  unfolding stop
  stop-drops_consumer s w = (close_consumer-Ended s.c (record s { running = false }) w refl).1

  -- What holds when `Start` returns nil: a producer, and a consumer if the configuration asks for one.
  unfoldable pub IsReady : Kafka → Type 0
  IsReady s =
      ((p : Producer) × (s.p ≡ some p))
      × (wants_consumer s.conf ≡ true → (c : Consumer) × (s.c ≡ some c))

  module _
      (consumer_either : (addrs : List String) (group : String) (topics : List String)
          (conf : ClusterConf)
        → IsEither (lib.new_consumer addrs group topics conf))
      (producer_either : (addrs : List String) (conf : ClusterConf)
        → IsEither (lib.new_producer addrs conf)) where
    -- A result of `Start` is ready when it is nil.
    abbrev Readied : Ran → Type 0
    Readied r = r.0 ≡ returned none → IsReady r.1.0

    opened_producer-Readied :
        (r : Option Producer × Option String) (s : Kafka) (w : W)
        → ((p : Producer) × (r ≡ (some p, none))) ⊎ ((e : String) × (r ≡ (none, some e)))
        → (wants_consumer s.conf ≡ true → (c : Consumer) × (s.c ≡ some c))
        → Readied (or_return lib (λ st. (returned none, st)) r.1 (set_producer r.0 s, w))
    unfolding or_return IsReady
    opened_producer-Readied r s w (inl (p, made)) has = rw made (λ ok. ((p, refl), has))
    opened_producer-Readied r s w (inr (e, failed)) has = rw failed (λ ok. cc)

    open_producer-Readied :
        (p : Option Producer) (s : Kafka) (w : W)
        → s.p ≡ p
        → (wants_consumer s.conf ≡ true → (c : Consumer) × (s.c ≡ some c))
        → Readied (open_producer lib p (s, w))
    unfolding open_producer IsReady IsEither
    open_producer-Readied (some p) s w e has = λ ok. ((p, e), has)
    open_producer-Readied none s w e has =
        let made = lib.new_producer s.conf.addrs s.conf.cluster_conf w in
        opened_producer-Readied made.0 s made.1 (producer_either s.conf.addrs s.conf.cluster_conf w)
          has

    opened_consumer-Readied :
        (r : Option Consumer × Option String) (s : Kafka) (w : W)
        → ((c : Consumer) × (r ≡ (some c, none))) ⊎ ((e : String) × (r ≡ (none, some e)))
        → Readied (or_return lib (start_producer lib) r.1 (set_consumer r.0 s, w))
    unfolding or_return
    opened_consumer-Readied r s w (inl (c, made)) =
        rw made (open_producer-Readied s.p (set_consumer (some c) s) w refl (λ wanted. (c, refl)))
    opened_consumer-Readied r s w (inr (e, failed)) = rw failed (λ ok. cc)

    open_consumer-Readied :
        (c : Option Consumer) (wanted : Bool) (s : Kafka) (w : W)
        → s.c ≡ c
        → wants_consumer s.conf ≡ wanted
        → Readied (open_consumer lib c wanted (s, w))
    unfolding open_consumer IsEither
    open_consumer-Readied (some c) wanted s w e f = open_producer-Readied s.p s w refl (λ _. (c, e))
    open_consumer-Readied none false s w e f = open_producer-Readied s.p s w refl (λ wanted. cc)
    open_consumer-Readied none true s w e f =
        let conf = s.conf in
        let made =
          lib.new_consumer conf.addrs conf.consumer_group_id conf.consumer_topics conf.cluster_conf
            w in
        opened_consumer-Readied made.0 s made.1 (
          consumer_either conf.addrs conf.consumer_group_id conf.consumer_topics conf.cluster_conf
            w)

    validated-Readied :
        (err : Option String) (s : Kafka) (w : W)
        → Readied (
            or_return lib (λ st. open_consumer lib st.0.c (wants_consumer st.0.conf) st) err (s, w))
    unfolding or_return
    validated-Readied none s w = open_consumer-Readied s.c (wants_consumer s.conf) s w refl refl
    validated-Readied (some e) s w = λ ok. cc

    -- When `Start` returns nil, whatever the state it began in, the service has a producer, and a
    -- consumer if the configuration names a group and a topic; given that the library makes a client
    -- exactly when it reports no error.
    pub start-IsReady :
        (s : Kafka) (w : W) → (start lib (s, w)).0 ≡ returned none → IsReady (start lib (s, w)).1.0
    unfolding start
    start-IsReady s w = validated-Readied (lib.validate s.conf.cluster_conf) s w

  start_producer-again :
      (p : Option Producer) (s : Kafka) (w : W)
      → (p0 : Producer) × (p ≡ some p0)
      → open_producer lib p (s, w) ≡ (returned none, (s, w))
  unfolding open_producer
  start_producer-again (some p) s w h = refl
  start_producer-again none s w h = cc

  open_consumer-again :
      (c : Option Consumer) (wanted : Bool) (s : Kafka) (w : W)
      → (c0 : Consumer) × (c ≡ some c0)
      → (p : Producer) × (s.p ≡ some p)
      → open_consumer lib c wanted (s, w) ≡ (returned none, (s, w))
  unfolding open_consumer
  open_consumer-again (some c) wanted s w hc hp = start_producer-again s.p s w hp
  open_consumer-again none wanted s w hc hp = cc

  validated-again :
      (err : Option String) (s : Kafka) (w : W)
      → err ≡ none
      → (c : Consumer) × (s.c ≡ some c)
      → (p : Producer) × (s.p ≡ some p)
      → or_return lib (λ st. open_consumer lib st.0.c (wants_consumer st.0.conf) st) err (s, w)
        ≡ (returned none, (s, w))
  unfolding or_return
  validated-again none s w e hc hp = open_consumer-again s.c (wants_consumer s.conf) s w hc hp
  validated-again (some e) s w f hc hp = cc

  -- A service with all its clients and a valid configuration is left as it is, and nothing is called.
  pub start-again :
      (s : Kafka) (w : W) (c : Consumer) (p : Producer)
      → lib.validate s.conf.cluster_conf ≡ none
      → s.c ≡ some c
      → s.p ≡ some p
      → start lib (s, w) ≡ (returned none, (s, w))
  unfolding start
  start-again s w c p valid has_c has_p =
      validated-again (lib.validate s.conf.cluster_conf) s w valid (c, has_c) (p, has_p)
