-- ===== src/Goroutines/Silence.antt =====
-- service.go: channels without an error to read, and what leaves them so.
use bandmaster.Base.{
  ℕ, ◌<◌, ◌≤◌, ◌≡◌, sym, ap, ◌∙◌, subst, inl, inr, Option, List, [], arith, returned,
}
use bandmaster.Base.Family.{update, update_ne, update_keeps}
use bandmaster.Errors.{Err}
use bandmaster.Channel.{Chan, receive, receive-empty}
use bandmaster.ServiceBase.{ServiceBase, Object, allocate}
use bandmaster.ServiceBase.Flow.{shut}
use bandmaster.ServiceBase.Broadcast.{ChangesChans}
use bandmaster.Goroutines.{set_chan}
use bandmaster.Goroutines.Serving.{among}

-- A change of a service that puts nothing into a channel that was made before and is empty.
pub record Hushes (o o' : Object) : Type 0 where
  pub later : o.next ≤ o'.next
  pub empty : (c : ℕ) → c < o.next → (o.chans c).buffer ≡ [] → (o'.chans c).buffer ≡ []

pub Hushes-refl : (o : Object) → Hushes o o
Hushes-refl o = record { later = omega arith; empty = λ c lt h. h }

pub allocate-Hushes :
    (o : Object) (ch : Chan) (b : ServiceBase) → Hushes o (allocate ch (record o { base = b }))
unfolding allocate
allocate-Hushes o ch b = record {
  later = omega arith;
  empty = λ c lt h. rw (update_ne o.chans o.next ch c (λ e. omega (arith, e, lt))) h;
}

pub receive-Hushes :
    (o : Object) (c : ℕ) (r : Option Err) (ch : Chan)
    → receive (o.chans c) ≡ returned (r, ch)
    → Hushes o (set_chan o c ch)
receive-Hushes o c r ch got = record {
  later = omega arith;
  empty = λ d lt h.
      update_keeps o.chans c ch (λ x. x.buffer ≡ []) d
        (λ e.
          (receive-empty (o.chans c) ch r got (subst (λ y. (o.chans y).buffer ≡ []) (sym e) h)).1)
        h;
}

pub close_all-Hushes :
    (o o' : Object) (cs : List ℕ)
    → o.next ≤ o'.next
    → ChangesChans shut cs o.chans o'.chans
    → Hushes o o'
close_all-Hushes o o' cs later changes = record {
  later = later;
  empty = λ c lt h. elim (among c cs) [
    | inl m ↦ ap (λ x. x.buffer) (changes.listed c m) ∙ h
    | inr other ↦ ap (λ x. x.buffer) (changes.unlisted c other) ∙ h
  ];
}

-- A step that writes `o` to the address `j`.
pub write-Hushes :
    (objects : ℕ → Object) (j : ℕ) (o : Object)
    → Hushes (objects j) o
    → (k : ℕ) → Hushes (objects k) (update objects j o k)
write-Hushes objects j o hush k =
    update_keeps objects j o (Hushes (objects k)) k (λ e. subst (λ x. Hushes (objects x) o) e hush)
      (Hushes-refl (objects k))
