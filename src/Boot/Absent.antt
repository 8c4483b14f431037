-- ===== src/Boot/Absent.antt =====
-- maestro.go: what StartAll leaves alone: a service without a goroutine.
use bandmaster.Base.{ℕ, ◌≡◌, refl, sym, ap, ◌∙◌, ◌≢◌, inl, inr, String, In}
use bandmaster.Base.Dict.{values}
use bandmaster.Base.Family.{update, update_ne}
use bandmaster.ServiceBase.{Object, started_channel}
use bandmaster.Registry.{Maestro, Program}
use bandmaster.Channel.{Chan}
use bandmaster.Goroutines.Grows.{write_flag}
use bandmaster.Boot.Defs.{
  Pc, entry, waiting, receiving, calling, backing_off, failing, succeeding, reporting, finished,
  System, Step, already, abort, go_on, subscribe, nil_service, dependency_ready, dependency_failed,
  dependencies_ready, call, timer, interrupt, fail, succeed, report, cancel, outside, Reach, here,
  next_step,
}
use bandmaster.Boot.Objects.{is_started, started_channel-Grows}
use bandmaster.Boot.StartAll.{launch, store_of}
use bandmaster.Boot.Returns.{launched_cases}

-- The goroutine `k` has ended, or there is none, and its service is as `o` as for being started.
abbrev IsAbsent : System → ℕ → System → Type 0
IsAbsent s k t = (t.pcs k ≡ finished) × ((t.objects k).started ≡ (s.objects k).started)

module _ (services : Maestro) (ctx_err : String) (s : System) (k : ℕ)
    (gone : s.pcs k ≡ finished) where
  -- A goroutine that goes on is another one.
  others : (i : ℕ) (pc : Pc) → s.pcs i ≡ pc → pc ≢ finished → i ≢ k
  others i pc at runs same = runs (sym at ∙ ap s.pcs same ∙ gone)

  pcs_stay : (i : ℕ) (old pc : Pc) → s.pcs i ≡ old → old ≢ finished → update s.pcs i pc k ≡ finished
  pcs_stay i old pc at runs = update_ne s.pcs i pc k (others i old at runs) ∙ gone

  watched :
      (j : ℕ)
      → (update s.objects j (started_channel (s.objects j)).1 k).started ≡ (s.objects k).started
  watched j =
      let (grow, same, room) = started_channel-Grows (s.objects j) in
      write_flag is_started s.objects j _ same k

  own :
      (i : ℕ) (old : Pc) (o : Object)
      → s.pcs i ≡ old
      → old ≢ finished
      → (update s.objects i o k).started ≡ (s.objects k).started
  own i old o at runs = ap (λ x. x.started) (update_ne s.objects i o k (others i old at runs))

  Step-IsAbsent : (t : System) → Step services ctx_err s t → IsAbsent s k t
  Step-IsAbsent t (already i at on) = (pcs_stay i entry _ at (λ e. cc), watched i)
  Step-IsAbsent t (abort i at c) = (pcs_stay i entry _ at (λ e. cc), watched i)
  Step-IsAbsent t (go_on i order at off c same once) = (pcs_stay i entry _ at (λ e. cc), watched i)
  Step-IsAbsent t (subscribe i j d todo at found) =
      (pcs_stay i (waiting _) _ at (λ e. cc), watched j)
  Step-IsAbsent t (nil_service i d todo at found) = (pcs_stay i (waiting _) _ at (λ e. cc), refl)
  Step-IsAbsent t (dependency_ready i j c d todo ch at got) =
      (pcs_stay i (receiving d j c todo) _ at (λ e. cc), write_flag is_started s.objects j _ refl k)
  Step-IsAbsent t (dependency_failed i j c d todo e ch at got) =
      (pcs_stay i (receiving d j c todo) _ at (λ e. cc), write_flag is_started s.objects j _ refl k)
  Step-IsAbsent t (dependencies_ready i at) = (pcs_stay i (waiting _) _ at (λ e. cc), refl)
  Step-IsAbsent t (call i attempts ib result at) =
      (pcs_stay i (calling attempts ib) _ at (λ e. cc), refl)
  Step-IsAbsent t (timer i attempts ib at) =
      (pcs_stay i (backing_off attempts ib) _ at (λ e. cc), refl)
  Step-IsAbsent t (interrupt i attempts ib at c) =
      (pcs_stay i (backing_off attempts ib) _ at (λ e. cc), refl)
  Step-IsAbsent t (fail i e r o at did) =
      (pcs_stay i (failing e) _ at (λ e. cc), own i (failing e) o at (λ e. cc))
  Step-IsAbsent t (succeed i r o at did) =
      (pcs_stay i succeeding _ at (λ e. cc), own i succeeding o at (λ e. cc))
  Step-IsAbsent t (report i e c at sent) = (pcs_stay i (reporting e) _ at (λ e. cc), refl)
  Step-IsAbsent t cancel = (gone, refl)
  Step-IsAbsent t (outside j) = (gone, watched j)

module _ (services : Maestro) (ctx_err : String) (s : System) (k : ℕ)
    (gone : s.pcs k ≡ finished) where
  Reach-IsAbsent : (t : System) → Reach services ctx_err s t → IsAbsent s k t
  Reach-IsAbsent t here = (gone, refl)
  Reach-IsAbsent t (next_step {t = u} r step) =
      let (still, same) = Reach-IsAbsent u r in
      let (now, flag) = Step-IsAbsent services ctx_err u k still t step in (now, flag ∙ same)

-- A service that is not in the map is neither started nor stopped by StartAll.
pub launch-IsAbsent :
    (p : Program) (ctx_err : String) (c : Chan) (t : System) (k : ℕ)
    → Reach p.services ctx_err (launch p c) t
    → ¬ In k (values p.services)
    → (t.objects k).started ≡ (store_of p k).started
launch-IsAbsent p ctx_err c t k r other = elim (launched_cases p.services k) [
  | inr (begins, at) ↦ absurd (other at)
  | inl gone ↦ let (now, same) = Reach-IsAbsent p.services ctx_err (launch p c) k gone t r in same
]
