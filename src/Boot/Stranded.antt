-- ===== src/Boot/Stranded.antt =====
-- maestro.go: a goroutine of StartAll that waits for a dependency whose own goroutine has ended.
use bandmaster.Base.{
  ℕ, ◌<◌, ◌≡◌, sym, ap, ◌∙◌, subst, ◌≢◌, ◌⊎◌, inl, inr, String, Option, none, some, List, [], ◌∷◌,
  returned, blocked, arith, if_ind,
}
use bandmaster.Base.Family.{update_ne, update_keeps}
use bandmaster.Errors.{Err}
use bandmaster.Channel.{Chan, receive}
use bandmaster.ServiceBase.{Object, started_channel, allocate}
use bandmaster.Registry.{Maestro}
use bandmaster.Boot.Defs.{
  Pc, entry, waiting, receiving, calling, backing_off, failing, succeeding, reporting, finished,
  crashed, System, Step, already, abort, go_on, subscribe, nil_service, dependency_ready,
  dependency_failed, dependencies_ready, call, timer, interrupt, fail, succeed, report, cancel,
  outside, Reach, here, next_step,
}
use bandmaster.Goroutines.{set_chan, move, jump}

-- Behind the last call of a method of its service.
abbrev pub HasEnded : Pc → Type 0
HasEnded (reporting e) = Unit
HasEnded finished = Unit
HasEnded crashed = Unit
HasEnded _ = ⊥

-- The goroutine `i` waits at the address `c` of the service `j` for what nobody will send.
pub record IsStranded (s : System) (i j c : ℕ) (d : String) (todo : List String) : Type 0 where
  pub waits : s.pcs i ≡ receiving d j c todo
  pub ended : HasEnded (s.pcs j)
  pub made : c < (s.objects j).next
  pub silent : receive ((s.objects j).chans c) ≡ blocked

module _ (services : Maestro) (ctx_err : String) (i j c : ℕ) (d : String) (todo : List String) where
  -- An object of the service `j` with the channel as it was.
  abbrev Silent : Object → Type 0
  Silent o = (c < o.next) × (receive (o.chans c) ≡ blocked)

  started_channel-Silent : (o : Object) → Silent o → Silent (started_channel o).1
  unfolding started_channel allocate
  started_channel-Silent o h =
      if_ind (λ (r : ℕ × Object). Silent r.1) o.started
        (λ _.
          (omega (arith, h.0), rw (update_ne o.chans o.next _ c (λ e. omega (arith, e, h.0))) h.1))
        (λ _.
          (omega (arith, h.0), rw (update_ne o.chans o.next _ c (λ e. omega (arith, e, h.0))) h.1))

  receive-Silent :
      (o : Object) (e : ℕ) (r : Option Err) (ch : Chan)
      → receive (o.chans e) ≡ returned (r, ch)
      → Silent o
      → Silent (set_chan o e ch)
  receive-Silent o e r ch got h = (
    h.0,
    update_keeps o.chans e ch (λ x. receive x ≡ blocked) c
        (λ same. absurd (no_news o e r ch got (rw same h.1))) h.1,
  )
    where
      no_news :
          (o : Object) (e : ℕ) (r : Option Err) (ch : Chan)
          → receive (o.chans e) ≡ returned (r, ch)
          → ¬ (receive (o.chans e) ≡ blocked)
      no_news o e r ch got none_there = cc

  -- The goroutine `k` is neither the one that waits nor the one that has ended, or goes on from
  -- another place; the service at `x` becomes `o`.
  step-IsStranded :
      (s : System) (k x : ℕ) (pc : Pc) (o : Object)
      → IsStranded s i j c d todo
      → i ≢ k
      → (j ≡ k → HasEnded pc)
      → (x ≡ j → Silent (s.objects j) → Silent o)
      → IsStranded (move s k pc x o) i j c d todo
  step-IsStranded s k x pc o h ne own quiet =
      let silent =
        update_keeps s.objects x o Silent j (λ e. quiet e (h.made, h.silent)) (h.made, h.silent) in
      record {
        waits = update_ne s.pcs k pc i (λ e. ne (sym e)) ∙ h.waits;
        ended = update_keeps s.pcs k pc HasEnded j (λ e. own (sym e)) h.ended;
        made = silent.0;
        silent = silent.1;
      }

  -- A goroutine that is elsewhere is neither of the two.
  elsewhere :
      (s : System) (k : ℕ) (pc : Pc)
      → IsStranded s i j c d todo
      → s.pcs k ≡ pc
      → (receiving d j c todo ≢ pc)
      → i ≢ k
  elsewhere s k pc h at ne e = ne (sym h.waits ∙ ap s.pcs e ∙ at)

  not_ended :
      (s : System) (k : ℕ) (pc pc' : Pc)
      → IsStranded s i j c d todo
      → s.pcs k ≡ pc
      → ¬ HasEnded pc
      → j ≡ k
      → HasEnded pc'
  not_ended s k pc pc' h at ne e = absurd (ne (subst HasEnded (ap s.pcs e ∙ at) h.ended))

  -- A step of a goroutine that is neither of the two, at `pc`, to `pc'`.
  active-IsStranded :
      (s : System) (k x : ℕ) (pc pc' : Pc) (o : Object)
      → IsStranded s i j c d todo
      → s.pcs k ≡ pc
      → receiving d j c todo ≢ pc
      → ¬ HasEnded pc
      → (x ≡ j → Silent (s.objects j) → Silent o)
      → IsStranded (move s k pc' x o) i j c d todo
  active-IsStranded s k x pc pc' o h at ne active quiet =
      step-IsStranded s k x pc' o h (elsewhere s k pc h at ne) (not_ended s k pc pc' h at active)
        quiet

  jump-IsStranded :
      (s : System) (k : ℕ) (pc pc' : Pc)
      → IsStranded s i j c d todo
      → s.pcs k ≡ pc
      → receiving d j c todo ≢ pc
      → (¬ HasEnded pc) ⊎ HasEnded pc'
      → IsStranded (jump s k pc') i j c d todo
  jump-IsStranded s k pc pc' h at ne how = record {
    waits = update_ne s.pcs k pc' i (λ e. elsewhere s k pc h at ne (sym e)) ∙ h.waits;
    ended = update_keeps s.pcs k pc' HasEnded j (ends how) h.ended;
    made = h.made;
    silent = h.silent;
  }
    where
      ends : (¬ HasEnded pc) ⊎ HasEnded pc' → k ≡ j → HasEnded pc'
      ends (inl active) e = not_ended s k pc pc' h at active (sym e)
      ends (inr ended) e = ended

  watch :
      (s : System) (x : ℕ) → x ≡ j → Silent (s.objects j) → Silent (started_channel (s.objects x)).1
  watch s x e silent = rw e (started_channel-Silent (s.objects j) silent)

  take :
      (s : System) (x y : ℕ) (r : Option Err) (ch : Chan)
      → receive ((s.objects x).chans y) ≡ returned (r, ch)
      → x ≡ j
      → Silent (s.objects j)
      → Silent (set_chan (s.objects x) y ch)
  take s x y r ch got e silent =
      receive-Silent (s.objects x) y r ch got (subst (λ z. Silent (s.objects z)) (sym e) silent)

  clash :
      (s : System) (x y : ℕ) (a : String) (rest : List String) (r : Option Err) (ch : Chan)
      → IsStranded s i j c d todo
      → receive ((s.objects x).chans y) ≡ returned (r, ch)
      → ¬ (receiving d j c todo ≡ receiving a x y rest)
  clash s x y a rest r ch h got e =
      let same_j : j ≡ x = cc in
      let same_c : c ≡ y = cc in
      let blocks : receive ((s.objects x).chans y) ≡ blocked = rw (← same_j, ← same_c) h.silent in
      cc

  Step-IsStranded :
      (s t : System)
      → Step services ctx_err s t
      → IsStranded s i j c d todo
      → IsStranded t i j c d todo
  Step-IsStranded s t (already k at on) h =
      active-IsStranded s k k entry _ _ h at (λ e. cc) (λ x. x) (watch s k)
  Step-IsStranded s t (abort k at x) h =
      active-IsStranded s k k entry _ _ h at (λ e. cc) (λ x. x) (watch s k)
  Step-IsStranded s t (go_on k order at off x same once) h =
      active-IsStranded s k k entry _ _ h at (λ e. cc) (λ x. x) (watch s k)
  Step-IsStranded s t (subscribe k x a rest at found) h =
      active-IsStranded s k x (waiting (a ∷ rest)) _ _ h at (λ e. cc) (λ x. x) (watch s x)
  Step-IsStranded s t (nil_service k a rest at found) h =
      jump-IsStranded s k (waiting (a ∷ rest)) _ h at (λ e. cc) (inl (λ x. x))
  Step-IsStranded s t (dependency_ready k x y a rest ch at got) h =
      active-IsStranded s k x (receiving a x y rest) _ _ h at
        (λ e. clash s x y a rest none ch h got e) (λ x. x) (take s x y none ch got)
  Step-IsStranded s t (dependency_failed k x y a rest err ch at got) h =
      active-IsStranded s k x (receiving a x y rest) _ _ h at
        (λ e. clash s x y a rest (some err) ch h got e) (λ x. x) (take s x y (some err) ch got)
  Step-IsStranded s t (dependencies_ready k at) h =
      jump-IsStranded s k (waiting []) _ h at (λ e. cc) (inl (λ x. x))
  Step-IsStranded s t (call k attempts ib result at) h =
      jump-IsStranded s k (calling attempts ib) _ h at (λ e. cc) (inl (λ x. x))
  Step-IsStranded s t (timer k attempts ib at) h =
      jump-IsStranded s k (backing_off attempts ib) _ h at (λ e. cc) (inl (λ x. x))
  Step-IsStranded s t (interrupt k attempts ib at x) h =
      jump-IsStranded s k (backing_off attempts ib) _ h at (λ e. cc) (inl (λ x. x))
  Step-IsStranded s t (fail k e r o at did) h =
      active-IsStranded s k k (failing e) _ o h at (λ e. cc) (λ x. x)
        (λ same _. absurd (not_ended s k (failing e) entry h at (λ x. x) (sym same)))
  Step-IsStranded s t (succeed k r o at did) h =
      active-IsStranded s k k succeeding _ o h at (λ e. cc) (λ x. x)
        (λ same _. absurd (not_ended s k succeeding entry h at (λ x. x) (sym same)))
  Step-IsStranded s t (report k e x at sent) h =
      let there = jump-IsStranded s k (reporting e) finished h at (λ e. cc) (inr tt) in
      record { waits = there.waits; ended = there.ended; made = there.made; silent = there.silent }
  Step-IsStranded s t cancel h = record {
    waits = h.waits;
    ended = h.ended;
    made = h.made;
    silent = h.silent;
  }
  Step-IsStranded s t (outside x) h =
      let silent =
        update_keeps s.objects x _ Silent j (λ e. watch s x e (h.made, h.silent))
          (h.made, h.silent) in
      record { waits = h.waits; ended = h.ended; made = silent.0; silent = silent.1 }

  Reach-IsStranded :
      (s t : System)
      → Reach services ctx_err s t
      → IsStranded s i j c d todo
      → IsStranded t i j c d todo
  Reach-IsStranded s t here h = h
  Reach-IsStranded s t (next_step {t = u} r step) h =
      Step-IsStranded u t step (Reach-IsStranded s u r h)

  -- A goroutine of StartAll that waits for a dependency whose own goroutine has ended, on a channel
  -- that is open and empty, waits for ever: in every state that can follow, the context cancelled
  -- or not, it still stands there.
  pub stranded-waits :
      (s t : System)
      → IsStranded s i j c d todo
      → Reach services ctx_err s t
      → t.pcs i ≡ receiving d j c todo
  stranded-waits s t h r = (Reach-IsStranded s t r h).waits
