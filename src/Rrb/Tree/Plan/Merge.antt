-- ===== src/Rrb/Tree/Plan/Merge.antt =====
-- How `create_concat_plan` of vm/src/std/owl_list.c spreads the entries of a short node.
use owlang.Base.{
  ℕ, zero, suc, ◌+◌, ◌-◌, ◌*◌, ◌≤◌, ◌<◌, ◌≡◌, refl, ap, ◌∙◌, arith, List, [], ◌∷◌, ◌++◌, length,
  sum, All, min, replicate, length-append, append_one, leb, Bool-cases, inl, inr,
}
use owlang.Base.Outcome.{done}
use owlang.Rrb.Plan.{redistribute}
use owlang.Rrb.Tree.Plan.{InRange, read-append_next, write-append}

-- One round of `redistribute`, by whether what remains fits into the next node.
module _ (fuel i r x n : ℕ) (pre ns : List ℕ) (e : i ≡ length pre) where
  redistribute-fits :
      r + n ≤ 32
      → redistribute (suc fuel) (pre ++ x ∷ n ∷ ns) i r ≡ done (pre ++ (r + n) ∷ n ∷ ns, i + 1)
  unfolding redistribute
  redistribute-fits fits =
      let small : min (r + n) 32 ≡ r + n = ground arith in
      rw (read-append_next pre i x n ns e, small, write-append pre i x (r + n) (n ∷ ns) e)
        (ground arith)

  redistribute-over :
      32 < r + n
      → redistribute (suc fuel) (pre ++ x ∷ n ∷ ns) i r
        ≡ redistribute fuel ((pre ++ 32 ∷ []) ++ n ∷ ns) (i + 1) (r + n - 32)
  unfolding redistribute
  redistribute-over over =
      let large : min (r + n) 32 ≡ 32 = ground arith in
      let left : r + n - min (r + n) 32 ≡ r + n - 32 = ground arith in
      rw
        (
          append_one pre 32 (n ∷ ns),
          read-append_next pre i x n ns e,
          large,
          write-append pre i x 32 (n ∷ ns) e,
        )
        (ground (arith, ap (redistribute fuel (pre ++ 32 ∷ n ∷ ns) (i + 1)) left))

-- The loop moves `r` elements into the entries `ns` behind them: `full` full ones, a last one and
-- those that stay, `rest`; `stale` is the entry that has been used up.
abbrev pub Runs : ℕ → List ℕ → ℕ → ℕ → ℕ → List ℕ → Type 0
Runs r ns full last stale rest =
    (fuel i x : ℕ) (pre junk : List ℕ)
    → length ns < fuel
    → i ≡ length pre
    → redistribute fuel (pre ++ x ∷ (ns ++ junk)) i r
      ≡ done (pre ++ (replicate full 32 ++ last ∷ stale ∷ (rest ++ junk)), i + suc full)

fits-Runs : (r n : ℕ) (ns : List ℕ) → r + n ≤ 32 → Runs r (n ∷ ns) 0 (r + n) n ns
fits-Runs r n ns fits zero i x pre junk lt e = absurd (omega (arith, lt))
fits-Runs r n ns fits (suc fuel) i x pre junk lt e =
    redistribute-fits fuel i r x n pre (ns ++ junk) e fits

over-Runs :
    (r n full last stale : ℕ) (ns rest : List ℕ)
    → 32 < r + n
    → Runs (r + n - 32) ns full last stale rest
    → Runs r (n ∷ ns) (suc full) last stale rest
over-Runs r n full last stale ns rest over runs zero i x pre junk lt e = absurd (omega (arith, lt))
over-Runs r n full last stale ns rest over runs (suc fuel) i x pre junk lt e =
    redistribute-over fuel i r x n pre (ns ++ junk) e over
    ∙ runs fuel (i + 1) n (pre ++ 32 ∷ []) junk (omega (arith, lt))
        (omega (arith, e, length-append pre (32 ∷ [])))
    ∙ ap (λ zs. done (zs, i + 1 + suc full))
        (append_one pre 32 (replicate full 32 ++ last ∷ stale ∷ (rest ++ junk)))
    ∙ ap (λ n. done (pre ++ 32 ∷ (replicate full 32 ++ last ∷ stale ∷ (rest ++ junk)), n))
        (omega arith)

pub record Merged (r : ℕ) (ns : List ℕ) : Type 0 where
  pub full : ℕ
  pub last : ℕ
  pub stale : ℕ
  pub rest : List ℕ
  pub used : length ns ≡ suc full + length rest
  pub range : InRange last
  pub rest_range : All InRange rest
  pub sums : 32 * full + last + sum rest ≡ r + sum ns
  pub runs : Runs r ns full last stale rest

pub merge :
    (r : ℕ) (ns : List ℕ) → 1 ≤ r → All InRange ns → r + sum ns ≤ 32 * length ns → Merged r ns
merge r [] pos range room = absurd (omega (arith, pos, room))
merge r (n ∷ ns) pos ((one, most), range) room = elim (Bool-cases (leb (r + n) 32)) [
  | inl fits ↦ record {
    full = 0;
    last = r + n;
    stale = n;
    rest = ns;
    used = omega arith;
    range = (omega arith, ground arith);
    rest_range = range;
    sums = omega arith;
    runs = fits-Runs r n ns (ground arith);
  }
  | inr over ↦
      let more : 32 < r + n = ground arith in
      let m = merge (r + n - 32) ns (omega arith) range (omega (arith, room)) in
      record {
        full = suc m.full;
        last = m.last;
        stale = m.stale;
        rest = m.rest;
        used = omega (arith, m.used);
        range = m.range;
        rest_range = m.rest_range;
        sums = omega (arith, m.sums);
        runs = over-Runs r n m.full m.last m.stale ns m.rest more m.runs;
      }
]

-- Entries that do not fill all nodes have one that is not full.
pub record Short (xs : List ℕ) : Type 0 where
  pub full : ℕ
  pub short : ℕ
  pub behind : List ℕ
  pub same : xs ≡ replicate full 32 ++ short ∷ behind
  pub room : short ≤ 31
  pub range : InRange short
  pub behind_range : All InRange behind
  pub len : length xs ≡ full + suc (length behind)
  pub sums : sum xs ≡ 32 * full + short + sum behind

pub find-Short : (xs : List ℕ) → All InRange xs → sum xs < 32 * length xs → Short xs
find-Short [] all lt = absurd (omega (arith, lt))
find-Short (x ∷ xs) ((one, most), all) lt = elim (Bool-cases (leb x 31)) [
  | inl here ↦ record {
    full = 0;
    short = x;
    behind = xs;
    same = refl;
    room = ground arith;
    range = (one, most);
    behind_range = all;
    len = omega arith;
    sums = omega arith;
  }
  | inr later ↦
      let whole : x ≡ 32 = ground arith in
      let s = find-Short xs all (omega (arith, lt, whole)) in
      record {
        full = suc s.full;
        short = s.short;
        behind = s.behind;
        same = ap (λ n. n ∷ xs) whole ∙ ap (◌∷◌ 32) s.same;
        room = s.room;
        range = s.range;
        behind_range = s.behind_range;
        len = omega (arith, s.len);
        sums = omega (arith, s.sums, whole);
      }
]
