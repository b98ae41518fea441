-- ===== src/Vm/Keeps.antt =====
-- Invariants of operations on the machine, one rule for each way to build an operation.
use owlang.Base.{ℕ, Bool, true, false, if◌then◌else◌}
use owlang.Base.Outcome
use owlang.Base.Outcome.{Outcome, done, exited, aborted, fault, out_of_fuel}
use owlang.World.{World}
use owlang.Vm.{Vm, Op, ◌>>=◌, pure, lift}

module _ {w : World} where
  -- Where the operation returns, the machine that it leaves has the property.
  abbrev pub Leaves : {A : Type 0} → (Vm w → Type 0) → Outcome (A × Vm w) → Type 0
  Leaves P (done (a, vm)) = P vm
  Leaves P (exited c) = Unit {0}
  Leaves P aborted = Unit {0}
  Leaves P fault = Unit {0}
  Leaves P out_of_fuel = Unit {0}

  -- `m` keeps the property.
  pub record Keeps {A : Type 0} (P : Vm w → Type 0) (m : Op w A) : Type 0 where
    pub at : (vm : Vm w) → P vm → Leaves P (m vm)

module _ {w : World} {A : Type 0} where
  lift-Leaves : (P : Vm w → Type 0) (m : Outcome A) (vm : Vm w) → P vm → Leaves P (lift m vm)
  lift-Leaves P (done a) vm h = h
  lift-Leaves P (exited c) vm h = tt
  lift-Leaves P aborted vm h = tt
  lift-Leaves P fault vm h = tt
  lift-Leaves P out_of_fuel vm h = tt

  pub if-Leaves :
      (P : Vm w → Type 0) (b : Bool) (m n : Outcome (A × Vm w))
      → Leaves P m
      → Leaves P n
      → Leaves P (if b then m else n)
  if-Leaves P true m n hm hn = hm
  if-Leaves P false m n hm hn = hn

module _ {w : World} {A : Type 0} {P : Vm w → Type 0} where
  pub pure-Keeps : (a : A) → Keeps P (pure a)
  pure-Keeps a = record { at = λ vm h. h }

  -- `exit`, and undefined behaviour
  pub stops-Keeps : {c : ℕ} → Keeps {A = A} P (λ vm. exited c)
  stops-Keeps = record { at = λ vm h. tt }

  pub faults-Keeps : Keeps {A = A} P (λ vm. fault)
  faults-Keeps = record { at = λ vm h. tt }

  pub starves-Keeps : Keeps {A = A} P (lift out_of_fuel)
  starves-Keeps = record { at = λ vm h. tt }

  -- a computation on the machine that does not change it
  pub reads-Keeps : (m : Vm w → Outcome A) → Keeps P (λ vm. lift (m vm) vm)
  reads-Keeps m = record { at = λ vm h. lift-Leaves P (m vm) vm h }

  pub gets-Keeps : (f : Vm w → A) → Keeps P (λ vm. done (f vm, vm))
  gets-Keeps f = record { at = λ vm h. h }

  -- a change of the machine
  pub writes-Keeps :
      (f : Vm w → A) (g : Vm w → Vm w)
      → ((vm : Vm w) → P vm → P (g vm))
      → Keeps P (λ vm. done (f vm, g vm))
  writes-Keeps f g keeps = record { at = keeps }

  pub if-Keeps : {m n : Op w A} (b : Bool) → Keeps P m → Keeps P n → Keeps P (if b then m else n)
  if-Keeps true km kn = km
  if-Keeps false km kn = kn

module _ {w : World} {A B : Type 0} where
  bind-Leaves :
      (P : Vm w → Type 0) (r : Outcome (A × Vm w)) (f : A → Op w B)
      → Leaves P r
      → ((a : A) → Keeps P (f a))
      → Leaves P (Outcome.bind r λ (a, vm'). f a vm')
  bind-Leaves P (done (a, vm')) f h kf = (kf a).at vm' h
  bind-Leaves P (exited c) f h kf = tt
  bind-Leaves P aborted f h kf = tt
  bind-Leaves P fault f h kf = tt
  bind-Leaves P out_of_fuel f h kf = tt

module _ {w : World} {A B : Type 0} {P : Vm w → Type 0} where
  pub bind-Keeps :
      {m : Op w A} {f : A → Op w B} → Keeps P m → ((a : A) → Keeps P (f a)) → Keeps P (m >>= f)
  bind-Keeps {m} {f} km kf = record { at = λ vm h. bind-Leaves P (m vm) f (km.at vm h) kf }

module _ {w : World} {B : Type 0} {P : Vm w → Type 0} where
  -- `m >> k`
  pub then-Keeps :
      {m : Op w (Unit {0})} {k : Op w B} → Keeps P m → Keeps P k → Keeps P (m >>= λ _. k)
  then-Keeps km kk = bind-Keeps km λ _. kk
