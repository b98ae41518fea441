-- ===== src/Rrb/Tree/Plan/Loop.antt =====
-- The loop of `create_concat_plan` of vm/src/std/owl_list.c.
use owlang.Base.{
  ℕ, zero, suc, ◌+◌, ◌-◌, ◌*◌, ◌≤◌, ◌<◌, ◌≡◌, refl, ap, sym, ◌∙◌, arith, List, [], ◌∷◌, ◌++◌,
  length, sum, All, take, replicate, append_assoc, length-append, append_one, length-replicate,
  replicate_add, sum-append, take-length_append, All-append, ltb, Bool-cases, inl, inr, true,
}
use owlang.Base.Outcome.{Outcome, done}
use owlang.Rrb.{read}
use owlang.Rrb.Plan.{skip_full, redistribute, shuffle_up, plan_loop, total}
use owlang.Rrb.Tree.Plan.{InRange, read-append, skip_full-replicate, shuffle_up-append}
use owlang.Rrb.Tree.Plan.Merge.{Merged, merge, Short, find-Short}

-- A round of the loop, from what its three parts return.
plan-round :
    (optimal i len short r i₁ : ℕ) (counts counts₁ counts₂ : List ℕ)
    → optimal + 2 < suc len
    → skip_full (suc (length counts)) counts i ≡ done short
    → read counts short ≡ done r
    → redistribute (suc (length counts)) counts short r ≡ done (counts₁, i₁)
    → shuffle_up (len - i₁) i₁ counts₁ ≡ done counts₂
    → plan_loop optimal i (suc len) counts ≡ plan_loop optimal (i₁ - 1) len counts₂
unfolding plan_loop
plan-round optimal i len short r i₁ counts counts₁ counts₂ more skips reads merges moves =
    let go : ltb (optimal + 2) (suc len) ≡ true = ground arith in
    rw (plan_loop, go, skips, reads, merges, moves) refl

-- The round that starts at a short entry behind `i + k` full ones.
entry-round :
    (optimal i k len r : ℕ) (ns junk : List ℕ) (m : Merged r ns)
    → r ≤ 31
    → optimal + 2 < suc len
    → i + k + suc (length ns) ≡ suc len
    → (junk' : List ℕ) × (plan_loop optimal i (suc len) (replicate (i + k) 32 ++ r ∷ (ns ++ junk))
        ≡ plan_loop optimal
            (i + k + m.full)
            len
            (replicate (i + k + m.full) 32 ++ m.last ∷ (m.rest ++ junk')))
entry-round optimal i k len r ns junk m small more total =
    let pre : List ℕ = replicate (i + k) 32 in
    let counts : List ℕ = pre ++ r ∷ (ns ++ junk) in
    let i₁ = i + k + suc m.full in
    let front : List ℕ = replicate (i + k + m.full) 32 in
    let here : i + k ≡ length pre = sym (length-replicate {A = ℕ} (i + k) 32) in
    let size = length-append {0} pre (r ∷ (ns ++ junk)) in
    let size' = length-append {0} ns junk in
    let skips : skip_full (suc (length counts)) counts i ≡ done (i + k) =
      ap (λ zs. skip_full (suc (length counts)) zs i)
        (sym (replicate_add i k 32 (r ∷ (ns ++ junk))))
      ∙ skip_full-replicate (suc (length counts)) k r i (replicate i 32) (ns ++ junk) (omega arith)
          small (sym (length-replicate {A = ℕ} i 32)) in
    let reads = read-append pre (i + k) r (ns ++ junk) here in
    let merges = m.runs (suc (length counts)) (i + k) r pre junk (omega arith) here in
    let (junk', moved) = shuffle_up-append m.rest i₁ m.stale (front ++ m.last ∷ []) junk (
      omega
        (arith, length-append front (m.last ∷ []), length-replicate {A = ℕ} (i + k + m.full) 32)) in
    let rounds : len - i₁ ≡ length m.rest = omega (arith, m.used) in
    let moves : shuffle_up (len - i₁) i₁
          (pre ++ (replicate m.full 32 ++ m.last ∷ m.stale ∷ (m.rest ++ junk)))
        ≡ done (front ++ m.last ∷ (m.rest ++ junk')) =
      ap
        (λ n. shuffle_up n i₁ (pre ++ (replicate m.full 32 ++ m.last ∷ m.stale ∷ (m.rest ++ junk))))
        rounds
      ∙ ap (shuffle_up (length m.rest) i₁) (
          replicate_add (i + k) m.full 32 (m.last ∷ m.stale ∷ (m.rest ++ junk))
          ∙ sym (append_one front m.last (m.stale ∷ (m.rest ++ junk))))
      ∙ moved
      ∙ ap done (append_one front m.last (m.rest ++ junk')) in
    let back : i₁ - 1 ≡ i + k + m.full = omega arith in
    (
      junk',
      plan-round optimal i len (i + k) r i₁ counts
            (pre ++ (replicate m.full 32 ++ m.last ∷ m.stale ∷ (m.rest ++ junk)))
            (front ++ m.last ∷ (m.rest ++ junk')) more skips reads merges moves
          ∙ ap (λ n. plan_loop optimal n len (front ++ m.last ∷ (m.rest ++ junk'))) back,
    )

-- What the loop leaves: a plan for as many elements, in nodes that can be.
pub record Planned (optimal sums len : ℕ) (o : Outcome (List ℕ × ℕ)) : Type 0 where
  pub counts : List ℕ
  pub plan : List ℕ
  pub returns : o ≡ done (counts, length plan)
  pub top : take (length plan) counts ≡ plan
  pub same_sum : sum plan ≡ sums
  pub range : All InRange plan
  pub shorter : length plan ≤ len
  pub short : length plan ≤ optimal + 2

replicate-All : (n : ℕ) → All InRange (replicate n 32)
replicate-All zero = tt
replicate-All (suc n) = ((omega arith, omega arith), replicate-All n)

sum-replicate : (n : ℕ) → sum (replicate n 32) ≡ 32 * n
sum-replicate zero = omega arith
sum-replicate (suc n) = omega (arith, sum-replicate n)

plan_loop-end :
    (optimal i len : ℕ) (counts : List ℕ)
    → len ≤ optimal + 2
    → plan_loop optimal i len counts ≡ done (counts, len)
unfolding plan_loop
plan_loop-end optimal i zero counts le = refl
plan_loop-end optimal i (suc len) counts le = ground arith

plan_loop-stop :
    (optimal i len : ℕ) (xs junk : List ℕ)
    → All InRange xs
    → i + length xs ≡ len
    → len ≤ optimal + 2
    → Planned optimal
        (32 * i + sum xs)
        len
        (plan_loop optimal i len (replicate i 32 ++ (xs ++ junk)))
unfolding plan_loop
plan_loop-stop optimal i len xs junk range e le =
    let plan = replicate i 32 ++ xs in
    let size : length plan ≡ len =
      length-append (replicate i 32) xs ∙ omega (arith, length-replicate {A = ℕ} i 32) in
    record {
      counts = plan ++ junk;
      plan = plan;
      returns =
          plan_loop-end optimal i len _ le
          ∙ ap done (ap (λ zs. (zs, len)) (sym (append_assoc (replicate i 32) xs junk)))
          ∙ ap (λ n. done (plan ++ junk, n)) (sym size);
      top = take-length_append plan junk;
      same_sum = sum-append (replicate i 32) xs ∙ omega (arith, sum-replicate i);
      range = All-append InRange (replicate i 32) xs (replicate-All i) range;
      shorter = omega (arith, size);
      short = omega (arith, size);
    }

-- A round takes an entry away and keeps what the others hold.
plan_loop-more :
    (len optimal i : ℕ) (xs junk : List ℕ) (s : Short xs) (m : Merged s.short s.behind)
    → optimal + 2 < suc len
    → i + length xs ≡ suc len
    → ((junk' : List ℕ)
        → Planned optimal (32 * (i + s.full + m.full) + sum (m.last ∷ m.rest)) len (
            plan_loop optimal
              (i + s.full + m.full)
              len
              (replicate (i + s.full + m.full) 32 ++ (m.last ∷ m.rest ++ junk'))))
    → Planned optimal
        (32 * i + sum xs)
        (suc len)
        (plan_loop optimal i (suc len) (replicate i 32 ++ (xs ++ junk)))
plan_loop-more len optimal i xs junk s m more e below =
    let (junk', round) =
      entry-round optimal i s.full len s.short s.behind junk m s.room more
        (omega (arith, e, s.len)) in
    let rest = below junk' in
    let split =
      ap (λ zs. replicate i 32 ++ (zs ++ junk)) s.same
      ∙ ap (λ zs. replicate i 32 ++ zs)
          (append_assoc (replicate s.full 32) (s.short ∷ s.behind) junk)
      ∙ replicate_add i s.full 32 (s.short ∷ (s.behind ++ junk)) in
    record {
      counts = rest.counts;
      plan = rest.plan;
      returns = ap (plan_loop optimal i (suc len)) split ∙ round ∙ rest.returns;
      top = rest.top;
      same_sum = rest.same_sum ∙ omega (arith, m.sums, s.sums);
      range = rest.range;
      shorter = omega (arith, rest.shorter);
      short = rest.short;
    }

pub plan_loop-Planned :
    (len optimal i : ℕ) (xs junk : List ℕ)
    → All InRange xs
    → i + length xs ≡ len
    → 32 * i + sum xs ≤ 32 * optimal
    → Planned optimal
        (32 * i + sum xs)
        len
        (plan_loop optimal i len (replicate i 32 ++ (xs ++ junk)))
plan_loop-Planned zero optimal i xs junk range e room =
    plan_loop-stop optimal i zero xs junk range e (omega arith)
plan_loop-Planned (suc len) optimal i xs junk range e room =
    elim (Bool-cases (ltb (optimal + 2) (suc len))) [
      | inr stop ↦ plan_loop-stop optimal i (suc len) xs junk range e (ground arith)
      | inl go ↦
          let more : optimal + 2 < suc len = ground arith in
          let s = find-Short xs range (omega (arith, more, e, room)) in
          let m =
            merge s.short s.behind s.range.0 s.behind_range
              (omega (arith, more, e, room, s.len, s.sums)) in
          plan_loop-more len optimal i xs junk s m more e λ junk'.
            plan_loop-Planned len optimal (i + s.full + m.full) (m.last ∷ m.rest) junk'
              (m.range, m.rest_range) (omega (arith, m.used, s.len, e))
              (omega (arith, m.sums, s.sums, room))
    ]
