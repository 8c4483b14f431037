-- ===== src/Goroutines/Grows.antt =====
-- service.go: what one step of a goroutine can do to a service, as far as waiting depends on it. The
-- flag is `started` for StartAll and `stopped` for StopAll.
use bandmaster.Base.{
  ℕ, ◌≤◌, ◌<◌, ◌≡◌, refl, ap, ◌∙◌, subst, ◌⊎◌, inl, inr, Bool, true, false, Option, List, returned,
  arith, Bool-cases,
}
use bandmaster.Base.Family.{update, update_ne, update_keeps}
use bandmaster.Errors.{Err}
use bandmaster.Channel.{Chan, send, receive, receive-closed}
use bandmaster.ServiceBase.{ServiceBase, Object, allocate, each}
use bandmaster.ServiceBase.Channels.{base-each, each-keeps}
use bandmaster.Goroutines.Defs.{set_chan}

send_keeps_open :
    (e : Err) (a b : Chan) → a.closed ≡ false → send e a ≡ returned b → b.closed ≡ false
unfolding send
send_keeps_open e a b s h = ground arith

module _ (flag : ServiceBase → Bool) where
  -- The name, the dependencies and the retries stay, the flag stays when it is set, and a channel that was made
  -- before is closed only where the flag is set.
  pub record Grows (o o' : Object) : Type 0 where
    pub named : o'.name ≡ o.name
    pub deps : o'.direct_deps ≡ o.direct_deps
    pub retry : o'.retries ≡ o.retries
    pub later : o.next ≤ o'.next
    pub kept : flag o.base ≡ true → flag o'.base ≡ true
    pub closing :
        (c : ℕ)
        → c < o.next
        → (o'.chans c).closed ≡ true
        → (flag o'.base ≡ true) ⊎ ((o.chans c).closed ≡ true)

  pub Grows-refl : (o : Object) → Grows o o
  Grows-refl o = record {
    named = refl;
    deps = refl;
    retry = refl;
    later = omega arith;
    kept = λ h. h;
    closing = λ c b h. inr h;
  }

  pub Grows-trans : (a b c : Object) → Grows a b → Grows b c → Grows a c
  Grows-trans a b c g h = record {
    named = h.named ∙ g.named;
    deps = h.deps ∙ g.deps;
    retry = h.retry ∙ g.retry;
    later = omega (arith, g.later, h.later);
    kept = λ on. h.kept (g.kept on);
    closing = λ x lt closed. elim (h.closing x (omega (arith, lt, g.later)) closed) [
      | inl on ↦ inl on
      | inr before ↦ elim (g.closing x lt before) [
        | inl on ↦ inl (h.kept on)
        | inr first ↦ inr first
      ]
    ];
  }

  -- A new channel, beside a change of the base that leaves the flag.
  pub allocate-Grows :
      (ch : Chan) (o : Object) (b : ServiceBase)
      → b.name ≡ o.name
      → b.direct_deps ≡ o.direct_deps
      → b.retries ≡ o.retries
      → flag b ≡ flag o.base
      → Grows o (allocate ch (record o { base = b }))
  unfolding allocate
  allocate-Grows ch o b named deps retry same = record {
    named = named;
    deps = deps;
    retry = retry;
    later = omega arith;
    kept = λ h. same ∙ h;
    closing = λ c lt h. inr (rw (update_ne o.chans o.next ch c (λ e. omega (arith, e, lt))) at h);
  }

  -- The channel behind a receive.
  pub receive-Grows :
      (o : Object) (c : ℕ) (r : Option Err) (ch : Chan)
      → receive (o.chans c) ≡ returned (r, ch)
      → Grows o (set_chan o c ch)
  receive-Grows o c r ch h = record {
    named = refl;
    deps = refl;
    retry = refl;
    later = omega arith;
    kept = λ s. s;
    closing = λ d b closed. inr (
        update_keeps o.chans c ch (λ x. x.closed ≡ true → (o.chans d).closed ≡ true) d
          (λ same x. rw (← same, ← receive-closed (o.chans c) ch r h) x) (λ s. s) closed);
  }

  -- Sending to the subscribers of a service whose flag is not set, behind a change of its base.
  pub send_all-Grows :
      (e : Err) (cs : List ℕ) (o : Object) (b : ServiceBase)
      → b.name ≡ o.name
      → b.direct_deps ≡ o.direct_deps
      → b.retries ≡ o.retries
      → flag o.base ≡ false
      → flag b ≡ false
      → let u = (each (send e) cs (record o { base = b })).1 in Grows o u × (flag u.base ≡ false)
  send_all-Grows e cs o b named deps retry off off' =
      let t : Object = record o { base = b } in
      let (base, n) = base-each (send e) cs t in
      (
        record {
          named = ap (λ s. s.name) base ∙ named;
          deps = ap (λ s. s.direct_deps) base ∙ deps;
          retry = ap (λ s. s.retries) base ∙ retry;
          later = omega (arith, n);
          kept = λ h. cc (off, h);
          closing = λ c lt closed. inr (still c closed);
        },
        ap flag base ∙ off',
      )
    where
      still :
          (c : ℕ)
          → ((each (send e) cs (record o { base = b })).1.chans c).closed ≡ true
          → (o.chans c).closed ≡ true
      still c closed = elim (Bool-cases (o.chans c).closed) [
        | inl h ↦ h
        | inr h ↦
            let kept =
              each-keeps (send e) (λ a. a.closed ≡ false) (send_keeps_open e) cs
                (record o { base = b }) c h in
            cc (closed, kept)
      ]

  -- Whatever is done to a service that ends with the flag set.
  pub set-Grows :
      (o u : Object)
      → u.name ≡ o.name
      → u.direct_deps ≡ o.direct_deps
      → u.retries ≡ o.retries
      → u.next ≡ o.next
      → flag u.base ≡ true
      → Grows o u
  set-Grows o u named deps retry next on = record {
    named = named;
    deps = deps;
    retry = retry;
    later = omega (arith, next);
    kept = λ h. on;
    closing = λ c b h. inl on;
  }

  -- A step that writes `o` to the address `j`.
  module _ (objects : ℕ → Object) (j : ℕ) (o : Object) where
    pub write-Grows : Grows (objects j) o → (k : ℕ) → Grows (objects k) (update objects j o k)
    write-Grows grow k =
        update_keeps objects j o (Grows (objects k)) k
          (λ e. subst (λ x. Grows (objects x) o) e grow) (Grows-refl (objects k))

    pub write_flag :
        flag o.base ≡ flag (objects j).base
        → (k : ℕ) → flag (update objects j o k).base ≡ flag (objects k).base
    write_flag same k =
        update_keeps objects j o (λ x. flag x.base ≡ flag (objects k).base) k
          (λ e. same ∙ ap (λ x. flag (objects x).base) e) refl
