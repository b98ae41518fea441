-- ===== src/Gc/Roots.antt =====
-- The registers of one frame, as `gc_collect` of vm/src/alloc.c goes through them.
use owlang.Base.{
  ℕ, zero, suc, ◌+◌, ◌<◌, ◌≤◌, ◌≡◌, ◌≢◌, ◌⊎◌, inl, inr, refl, sym, subst, ◌∙◌, ap, arith, true,
  false, Bool-cases, ==_iff, [], ◌∷◌, ltb, ◌==◌,
}
use owlang.Base.Outcome.{Outcome, done, exited, bind}
use owlang.World.{World}
use owlang.Term.{owl_extract_ptr}
use owlang.Vm.{Vm, Frame, update}
use owlang.Vm.Stable.{with_register}
use owlang.Gc.{collect_register, collect_frame}
use owlang.Gc.Relocate.{moved, IsSettled}
use owlang.Gc.Space.{
  rest, Snapshot, IsGood, IsLiveHeap, IsCopying, Extends, Extends-refl, Extends-trans, Pays,
  IsTight, Copies, stops, goes,
}
use owlang.Gc.Refs.{Placed, IsSettled-later}
use owlang.Gc.Block.{update_other, update_same}
use owlang.Gc.Copy.{copy-Copies, no_null}

module _ {w : World} (vm₀ : Vm w) (s : Snapshot) where
  -- A part of the collection ends the process for lack of memory, or returns in a later moment.
  pub data Collects (n : ℕ) (vm : Vm w) (Post : Vm w → Type 0)
      : Outcome (Unit {0} × Vm w) → Type 0 where
    ends : IsTight vm₀ s n vm → Collects n vm Post (exited 1)
    returns :
        {vm' : Vm w}
        → IsCopying vm₀ s vm'
        → Extends vm₀ s n vm vm'
        → Pays vm₀ s n vm vm'
        → rest vm' ≡ rest vm
        → Post vm'
        → Collects n vm Post (done (tt, vm'))

  pub Collects-bind :
      {n : ℕ} {vm : Vm w} {P Q : Vm w → Type 0} {r : Outcome (Unit {0} × Vm w)}
      {k : Vm w → Outcome (Unit {0} × Vm w)}
      → Collects n vm P r
      → ((vm' : Vm w)
          → IsCopying vm₀ s vm'
          → Extends vm₀ s n vm vm'
          → P vm'
          → Collects n vm' Q (k vm'))
      → Collects n vm Q (bind r λ (_, vm'). k vm')
  Collects-bind (ends tight) next = ends tight
  Collects-bind (returns c e paid f good) next = go_on e paid f (next _ c e good)
    where
      go_on :
          {n : ℕ} {vm vm₁ : Vm w} {Q : Vm w → Type 0} {r : Outcome (Unit {0} × Vm w)}
          → Extends vm₀ s n vm vm₁
          → Pays vm₀ s n vm vm₁
          → rest vm₁ ≡ rest vm
          → Collects n vm₁ Q r
          → Collects n vm Q r
      go_on e paid f (ends tight) = ends (omega arith)
      go_on e paid f (returns c' e' paid' f' good) =
          returns c' (Extends-trans vm₀ s e e') (omega arith) (f' ∙ f) good

  -- A part that changes nothing.
  pub returns_here :
      {n : ℕ} {vm : Vm w} {Post : Vm w → Type 0}
      → IsCopying vm₀ s vm
      → Post vm
      → Collects n vm Post (done (tt, vm))
  returns_here {n} {vm} c good = returns c (Extends-refl vm₀ s n vm) (omega arith) refl good

  -- The registers from `lo` up to `hi` of frame `i` have been copied.
  pub record IsFrameDone (i lo hi : ℕ) (vm vm' : Vm w) : Type 0 where
    pub others : (a : ℕ) → a ≢ i → vm'.frames a ≡ vm.frames a
    pub rest :
        (b : ℕ) → (b < lo) ⊎ (hi ≤ b) → (vm'.frames i).registers b ≡ (vm.frames i).registers b
    pub copied :
        (b : ℕ)
        → lo ≤ b
        → b < hi
        → ((vm'.frames i).registers b ≡ moved vm₀.gc vm'.forwards ((vm.frames i).registers b))
          × IsSettled vm₀.gc vm'.forwards ((vm.frames i).registers b)
    pub ret_address : (vm'.frames i).ret_address ≡ (vm.frames i).ret_address
    pub ret_register : (vm'.frames i).ret_register ≡ (vm.frames i).ret_register
    pub function : (vm'.frames i).function ≡ (vm.frames i).function

  with_frames-IsCopying :
      (vm : Vm w) (frames : ℕ → Frame)
      → IsCopying vm₀ s vm
      → IsCopying vm₀ s (record vm { frames = frames })
  with_frames-IsCopying vm frames c = record {
    to_space = c.to_space;
    from_space = c.from_space;
    size = c.size;
    above = c.above;
    each = λ p l. elim (c.each p l) [
      | inl m ↦ inl (record { unmarked = m.unmarked; holds = m.holds })
      | inr m ↦ inr (record {
        marked = m.marked;
        placed = m.placed;
        inside = m.inside;
        holds = m.holds;
        settled = m.settled;
      })
    ];
    injective = c.injective;
  }

  with_frames-Extends :
      {n : ℕ} {vm : Vm w} (vm' : Vm w) (frames : ℕ → Frame)
      → Extends vm₀ s n vm vm'
      → Extends vm₀ s n vm (record vm' { frames = frames })
  with_frames-Extends vm' frames e = record {
    grows = e.grows;
    stays = e.stays;
    later = e.later;
    beyond = e.beyond;
    kept = e.kept;
  }

  -- After one register.
  one-IsFrameDone :
      (vm vm' : Vm w) (i j term : ℕ)
      → vm'.frames ≡ vm.frames
      → term ≡ moved vm₀.gc vm'.forwards ((vm.frames i).registers j)
      → IsSettled vm₀.gc vm'.forwards ((vm.frames i).registers j)
      → IsFrameDone i j (j + 1) vm (with_register i j term vm')
  one-IsFrameDone vm vm' i j term same is settled =
      let here =
        update_same vm'.frames i
          (record (vm'.frames i) { registers = update (vm'.frames i).registers j term }) in
      let frame = ap (λ (f : ℕ → Frame). f i) same in
      record {
        others = λ a off. update_other vm'.frames i _ a off ∙ ap (λ (f : ℕ → Frame). f a) same;
        rest = λ b out.
            ap (λ (f : Frame). f.registers b) here
            ∙ update_other (vm'.frames i).registers j term b
                (λ e. elim out [ inl low ↦ omega arith | inr high ↦ omega arith ])
            ∙ ap (λ (f : Frame). f.registers b) frame;
        copied = λ b low high.
            let at : b ≡ j = omega arith in
            subst
              (λ (k : ℕ).
                ((with_register i j term vm').frames i).registers k
                  ≡ moved vm₀.gc vm'.forwards ((vm.frames i).registers k)
                × IsSettled vm₀.gc vm'.forwards ((vm.frames i).registers k))
              (sym at)
              (
                ap (λ (f : Frame). f.registers j) here
                    ∙ update_same (vm'.frames i).registers j term
                    ∙ is,
                settled,
              );
        ret_address =
            ap (λ (f : Frame). f.ret_address) (here) ∙ ap (λ (f : Frame). f.ret_address) frame;
        ret_register =
            ap (λ (f : Frame). f.ret_register) (here) ∙ ap (λ (f : Frame). f.ret_register) frame;
        function = ap (λ (f : Frame). f.function) (here) ∙ ap (λ (f : Frame). f.function) frame;
      }

module _ {w : World} (vm₀ : Vm w) (s : Snapshot) (h : IsLiveHeap vm₀ s) (n fuel : ℕ)
    (enough : n < fuel) where
  -- A register with the word 0 is left alone, which is no address of the heap.
  zero-Placed :
      (φ : ℕ → ℕ) (x : ℕ)
      → IsGood vm₀.gc s n x
      → (x == 0) ≡ true
      → (x ≡ moved vm₀.gc φ x) × IsSettled vm₀.gc φ x
  unfolding moved owl_extract_ptr
  zero-Placed φ x (inl outside) e = (rw outside refl, inl outside)
  zero-Placed φ x (inr good) e = absurd (no_null vm₀ s h (subst s.live (at_null x e) good.0))
    where
      at_null : (x : ℕ) → (x == 0) ≡ true → owl_extract_ptr x ≡ 0
      at_null x e = ap owl_extract_ptr ((==_iff x 0).0 e)

  stored-Collects :
      (i j : ℕ) (vm : Vm w) (r : Outcome (ℕ × Vm w))
      → Copies vm₀ s n vm
          (Placed vm₀ s ((vm.frames i).registers j ∷ []) (λ f. f ((vm.frames i).registers j)))
          r
      → Collects vm₀ s n vm
          (IsFrameDone vm₀ s i j (j + 1) vm)
          (bind r λ (term, vm'). done (tt, with_register i j term vm'))
  stored-Collects i j vm r (stops tight) = ends tight
  stored-Collects i j vm r (goes {a} {vm'} c e paid same current (is, settled)) =
      returns (with_frames-IsCopying vm₀ s vm' _ c) (with_frames-Extends vm₀ s vm' _ e) paid current
        (one-IsFrameDone vm₀ s vm vm' i j a same is settled.0)

  collect_register-Collects :
      (i j : ℕ) (vm : Vm w)
      → IsCopying vm₀ s vm
      → IsGood vm₀.gc s n ((vm.frames i).registers j)
      → Collects vm₀ s n vm (IsFrameDone vm₀ s i j (j + 1) vm) (collect_register fuel i j vm)
  unfolding collect_register
  collect_register-Collects i j vm c good = elim (Bool-cases ((vm.frames i).registers j == 0)) [
    | inl null ↦ rw null (
        returns_here vm₀ s c (record {
          others = λ a off. refl;
          rest = λ b out. refl;
          copied = λ b low high.
              subst
                (λ (k : ℕ).
                  ((vm.frames i).registers k ≡ moved vm₀.gc vm.forwards ((vm.frames i).registers k))
                  × IsSettled vm₀.gc vm.forwards ((vm.frames i).registers k))
                (omega arith) (zero-Placed vm.forwards ((vm.frames i).registers j) good null);
          ret_address = refl;
          ret_register = refl;
          function = refl;
        }))
    | inr set ↦ rw set (
        stored-Collects i j vm _
          (copy-Copies vm₀ s h fuel n enough ((vm.frames i).registers j) vm good c))
  ]

  -- The registers from `lo` to `mid`, and then those from `mid` to `hi`.
  IsFrameDone-trans :
      {vm vm₁ vm₂ : Vm w} (i lo mid hi : ℕ)
      → lo ≤ mid
      → mid ≤ hi
      → ((b : ℕ) → lo ≤ b → b < hi → IsGood vm₀.gc s n ((vm.frames i).registers b))
      → Extends vm₀ s n vm₁ vm₂
      → IsFrameDone vm₀ s i lo mid vm vm₁
      → IsFrameDone vm₀ s i mid hi vm₁ vm₂
      → IsFrameDone vm₀ s i lo hi vm vm₂
  IsFrameDone-trans {vm} {vm₁} {vm₂} i lo mid hi first last good e a z = record {
    others = λ f off. z.others f off ∙ a.others f off;
    rest = λ b out.
        z.rest b (elim out [ inl low ↦ inl (omega arith) | inr high ↦ inr high ])
        ∙ a.rest b (elim out [ inl low ↦ inl low | inr high ↦ inr (omega arith) ]);
    copied = λ b low high. by_side b low high (Bool-cases (ltb b mid));
    ret_address = z.ret_address ∙ a.ret_address;
    ret_register = z.ret_register ∙ a.ret_register;
    function = z.function ∙ a.function;
  }
    where
      by_side :
          (b : ℕ)
          → lo ≤ b
          → b < hi
          → (ltb b mid ≡ true) ⊎ (ltb b mid ≡ false)
          → ((vm₂.frames i).registers b ≡ moved vm₀.gc vm₂.forwards ((vm.frames i).registers b))
            × IsSettled vm₀.gc vm₂.forwards ((vm.frames i).registers b)
      by_side b low high (inl before) =
          let (is, settled) = a.copied b low (ground arith) in
          let (kept, same) =
            IsSettled-later vm₀ s n vm₁.forwards vm₂.forwards ((vm.frames i).registers b) e.stays
              (good b low high) settled in
          (z.rest b (inl (ground arith)) ∙ is ∙ sym same, kept)
      by_side b low high (inr behind) =
          let same = a.rest b (inr (ground arith)) in
          subst
            (λ (x : ℕ).
              ((vm₂.frames i).registers b ≡ moved vm₀.gc vm₂.forwards x)
              × IsSettled vm₀.gc vm₂.forwards x)
            same (z.copied b (ground arith) high)

  pub collect_frame-Collects :
      (rest i j : ℕ) (vm : Vm w)
      → IsCopying vm₀ s vm
      → ((b : ℕ) → j ≤ b → b < j + rest → IsGood vm₀.gc s n ((vm.frames i).registers b))
      → Collects vm₀ s n vm (IsFrameDone vm₀ s i j (j + rest) vm) (collect_frame fuel rest i j vm)
  unfolding collect_frame
  collect_frame-Collects zero i j vm c good = returns_here vm₀ s c (record {
    others = λ a off. refl;
    rest = λ b out. refl;
    copied = λ b low high. absurd (omega arith);
    ret_address = refl;
    ret_register = refl;
    function = refl;
  })
  collect_frame-Collects (suc rest) i j vm c good =
      Collects-bind vm₀ s (collect_register-Collects i j vm c (good j (omega arith) (omega arith)))
        λ vm₁ c₁ e₁ a. behind vm₁ a (
          collect_frame-Collects rest i (j + 1) vm₁ c₁ λ b low high.
            subst (IsGood vm₀.gc s n) (sym (a.rest b (inr low)))
              (good b (omega arith) (omega arith)))
    where
      behind :
          {r : Outcome (Unit {0} × Vm w)} (vm₁ : Vm w)
          → IsFrameDone vm₀ s i j (j + 1) vm vm₁
          → Collects vm₀ s n vm₁ (IsFrameDone vm₀ s i (j + 1) (j + 1 + rest) vm₁) r
          → Collects vm₀ s n vm₁ (IsFrameDone vm₀ s i j (j + suc rest) vm) r
      behind vm₁ a (ends tight) = ends tight
      behind vm₁ a (returns {vm'} c e paid f z) =
          let at : j + 1 + rest ≡ j + suc rest = omega arith in
          returns c e paid f (
            IsFrameDone-trans i j (j + 1) (j + suc rest) (omega arith) (omega arith) good e a
              (subst (λ (hi : ℕ). IsFrameDone vm₀ s i (j + 1) hi vm₁ vm') at z))
