-- ===== src/Channel.antt =====
-- The Go channels of errors that service.go and maestro.go make, close, send to and receive from.
use bandmaster.Base.{
  subst, ℕ, Bool, true, false, Option, none, some, List, [], ◌∷◌, ◌++◌, length, ltb, if◌then◌else◌,
  Outcome, returned, panicked, blocked, ◌<◌, ◌≡◌, ◌⊎◌, inl, inr, refl, Bool-cases, arith,
}
use bandmaster.Errors.{Err, foreign}

-- A channel made by `make(chan error, capacity)`. The code sends no nil.
pub record Chan : Type 0 where
  pub capacity : ℕ
  pub buffer : List Err
  pub closed : Bool

abbrev pub make : ℕ → Chan
make n = record { capacity = n; buffer = []; closed = false }

-- `c <- err`: `blocked` stands for a send that waits for room in the buffer.
unfoldable pub send : Err → Chan → Outcome Err Chan
send e c =
    if c.closed
    then panicked (foreign "send on closed channel")
    else if ltb (length c.buffer) c.capacity
    then returned (record c { buffer = c.buffer ++ e ∷ [] })
    else blocked

-- `close(c)`
unfoldable pub close : Chan → Outcome Err Chan
close c =
    if c.closed
    then panicked (foreign "close of closed channel")
    else returned (record c { closed = true })

take_first : List Err → Chan → Outcome Err (Option Err × Chan)
take_first [] c = if c.closed then returned (none, c) else blocked
take_first (e ∷ rest) c = returned (some e, record c { buffer = rest })

-- `<-c`: the oldest error, nil from a closed channel, or `blocked` as long as there is neither.
unfoldable pub receive : Chan → Outcome Err (Option Err × Chan)
unfolding take_first
receive c = take_first c.buffer c

abbrev pub HasRoom : Chan → Type 0
HasRoom c = length c.buffer < c.capacity

-- A receive neither opens nor closes a channel.
pub receive-closed :
    (a b : Chan) (r : Option Err) → receive a ≡ returned (r, b) → b.closed ≡ a.closed
unfolding receive take_first
receive-closed a b r h = first a.buffer h
  where
    first : (es : List Err) → take_first es a ≡ returned (r, b) → b.closed ≡ a.closed
    first [] h = ground arith
    first (e ∷ es) h = cc

pub receive-capacity :
    (a b : Chan) (r : Option Err) → receive a ≡ returned (r, b) → b.capacity ≡ a.capacity
unfolding receive take_first
receive-capacity a b r h = first a.buffer h
  where
    first : (es : List Err) → take_first es a ≡ returned (r, b) → b.capacity ≡ a.capacity
    first [] h = ground arith
    first (e ∷ es) h = cc

-- A receive yields nil only from a closed channel.
pub receive-none-closed : (a b : Chan) → receive a ≡ returned (none, b) → a.closed ≡ true
unfolding receive take_first
receive-none-closed a b h = first a.buffer h
  where
    first : (es : List Err) → take_first es a ≡ returned (none, b) → a.closed ≡ true
    first [] h = ground arith
    first (e ∷ es) h = cc

-- A channel that is closed and empty yields nil at once.
pub receive-shut : (c : Chan) → c.buffer ≡ [] → c.closed ≡ true → receive c ≡ returned (none, c)
unfolding receive take_first
receive-shut c empty shut = rw empty (ground (arith, shut))

-- A receive returns, or waits on an open channel.
pub receive-cases :
    (c : Chan)
    → ((r : Option Err) × (ch : Chan) × (receive c ≡ returned (r, ch))) ⊎ (c.closed ≡ false)
unfolding receive take_first
receive-cases c = first c.buffer
  where
    first :
        (es : List Err)
        → ((r : Option Err) × (ch : Chan) × (take_first es c ≡ returned (r, ch)))
          ⊎ (c.closed ≡ false)
    first (e ∷ es) = inl (some e, _, refl)
    first [] = elim (Bool-cases c.closed) [
      | inl shut ↦ inl (none, c, ground (arith, shut))
      | inr unclosed ↦ inr unclosed
    ]

-- A channel yields the oldest of its errors.
pub receive-more :
    (c : Chan) (e : Err) (es : List Err)
    → c.buffer ≡ e ∷ es
    → receive c ≡ returned (some e, record c { buffer = es })
unfolding receive take_first
receive-more c e es more = rw more refl

pub close-returned : (c d : Chan) → close c ≡ returned d → (d.closed ≡ true) × (d.buffer ≡ c.buffer)
unfolding close
close-returned c d h = ground arith

-- From a channel without an error in it, a receive yields none.
pub receive-empty :
    (a b : Chan) (r : Option Err)
    → receive a ≡ returned (r, b)
    → a.buffer ≡ []
    → (r ≡ none) × (b.buffer ≡ [])
unfolding receive take_first
receive-empty a b r h empty = ended (subst (λ es. take_first es a ≡ returned (r, b)) empty h)
  where
    ended : take_first [] a ≡ returned (r, b) → (r ≡ none) × (b.buffer ≡ [])
    ended h = elim (Bool-cases a.closed) [
      | inl shut ↦ (ground (arith, shut, h), ground (arith, shut, h, empty))
      | inr unclosed ↦ absurd (ground (arith, unclosed, h))
    ]
