-- ===== src/Types/Check/Certificate.antt =====
-- src/types.cc, `typecheck`: where the worklist comes to its end, the places that it has seen are closed.
use stacky.Common.{
  ℕ, zero, suc, ◌≡◌, refl, sym, subst, ap, ◌⊎◌, inl, inr, true, false, none, some, List, [], ◌∷◌,
  arith, ◌==◌, length, get_elem?, Bool-cases, Option-cases,
}
use stacky.Syntax.{Typestack, Operation, OperationKind, Word}
use stacky.Report.{ok, Outcome-cases}
use stacky.Dictionary.{Words}
use stacky.Types.Check.{
  State, Verifier, expects, Move, check_operation, check_loop, expect_output, same_stack,
  find_visited, at, word_of,
}
use stacky.Types.Check.Closed.{
  Places, Has, Closed, ends, leaves, passes, goes, forks, loops, calls, Closed-mono, BothWays,
  AllClosed,
}
use stacky.Types.Check.Rounds.{Again, GoesOn, round-none, round-exited, round-some}
use stacky.Types.Check.Moves.{
  Moved, plain, call, dynamic, go, fork, repeat, out, check_operation-Moved,
}

length-expect_output :
    (stack output : Typestack) → expect_output stack output ≡ ok tt → length stack ≡ length output
unfolding expect_output
length-expect_output [] [] e = refl
length-expect_output (t ∷ stack) [] e = absurd (ground (arith, e))
length-expect_output [] (o ∷ output) e = absurd (ground (arith, e))
length-expect_output (t ∷ stack) (o ∷ output) e =
    ap suc (length-expect_output stack output (ground (arith, e)))

length-same_stack : (ts us : Typestack) → same_stack ts us ≡ true → length ts ≡ length us
unfolding same_stack
length-same_stack [] [] e = refl
length-same_stack [] (u ∷ us) e = absurd (ground (arith, e))
length-same_stack (t ∷ ts) [] e = absurd (ground (arith, e))
length-same_stack (t ∷ ts) (u ∷ us) e = ap suc (length-same_stack ts us (ground (arith, e)))

same_index : (i j : ℕ) → (suc i == suc j) ≡ true → i ≡ j
same_index i j b = ground (arith, b)

abbrev pub Static : Words → Type 0
Static words =
    (op : Operation) (word : Word)
    → word_of words op.word ≡ some word
    → word.is_dynamically_typed ≡ false

abbrev depth : State → ℕ
depth s = length s.stack

abbrev AllHas : Places → List State → Type 0
AllHas places [] = Unit {0}
AllHas places (s ∷ states) = Has places s.ip (depth s) × AllHas places states

AllHas-more :
    (places : Places) (p : ℕ × ℕ) (states : List State)
    → AllHas places states
    → AllHas (p ∷ places) states
AllHas-more places p [] h = tt
AllHas-more places p (s ∷ states) h = (inr h.0, AllHas-more places p states h.1)

-- The `do` at an index was visited with a stack of this depth.
abbrev Visited : List State → ℕ → ℕ → Type 0
Visited visited i d = (e : State) × (find_visited i visited ≡ some e) × (depth e ≡ d)

module _ (words : Words) (ops : List Operation) (output : Typestack) where
  -- What the loop leaves behind: places that hold the worklist and are closed up to loops, and a
  -- longer list of visited `do`s, of which the new ones go on among these places.
  record Certificate (states visited visited' : List State) : Type 0 where
    pub places : Places
    pub holds : AllHas places states
    pub closed :
        (i d : ℕ) → Has places i d → Closed words ops (length output) (Visited visited') places i d
    pub keeps :
        (i : ℕ) (e : State) → find_visited i visited ≡ some e → find_visited i visited' ≡ some e
    pub news :
        (i : ℕ) (e : State)
        → find_visited i visited' ≡ some e
        → (find_visited i visited ≡ some e) ⊎ BothWays words ops (length output) places i (depth e)

  -- One more place, whose ways on are there.
  extend :
      (s : State) (states visited visited' : List State) (c : Certificate states visited visited')
      → Closed words ops (length output) (Visited visited') c.places s.ip (depth s)
      → Certificate (s ∷ states) visited visited'
  extend s states visited visited' c h = record {
    places = (s.ip, depth s) ∷ c.places;
    holds = (inl (refl, refl), AllHas-more c.places (s.ip, depth s) states c.holds);
    closed = λ i d. λ p. elim p [
      | inl (ei, ed) ↦
          subst
            (λ j.
              Closed words ops (length output) (Visited visited') ((s.ip, depth s) ∷ c.places) j d)
            (sym ei)
            (subst
              (λ e.
                Closed words ops (length output) (Visited visited') ((s.ip, depth s) ∷ c.places)
                  s.ip e)
              (sym ed) (Closed-mono words ops (length output) (λ j e l. l) (λ j e q. inr q) h))
      | inr q ↦ Closed-mono words ops (length output) (λ j e l. l) (λ j e r. inr r) (c.closed i d q)
    ];
    keeps = c.keeps;
    news = λ i e f. elim (c.news i e f) [
      | inl g ↦ inl g
      | inr (op, g, n, m) ↦ inr (op, g, inr n, inr m)
    ];
  }

  -- The worklist without its top, at the same places.
  below :
      (s : State) (states visited visited' : List State)
      → Certificate (s ∷ states) visited visited'
      → Certificate states visited visited'
  below s states visited visited' c = record {
    places = c.places;
    holds = c.holds.1;
    closed = c.closed;
    keeps = c.keeps;
    news = c.news;
  }

  -- A `do` that is visited for the first time, once both ways on are seen.
  visit :
      (op : Operation) (s : State) (ts : Typestack) (states visited visited' : List State)
      → get_elem? ops s.ip ≡ some op
      → find_visited s.ip visited ≡ none
      → (c : Certificate
          (at ts (suc s.ip) ∷ at ts op.jump ∷ states)
          (at ts (suc s.ip) ∷ visited)
          visited')
      → Certificate states visited visited' × Visited visited' s.ip (length ts)
  unfolding find_visited
  visit op s ts states visited visited' g f c = (
    record {
      places = c.places;
      holds = c.holds.1.1;
      closed = c.closed;
      keeps = λ i e h. c.keeps i e (elim (Bool-cases (suc s.ip == suc i)) [
        | inl b ↦ absurd (
            ground
              (arith, h, f, b, subst (λ n. find_visited n visited ≡ none) (same_index s.ip i b) f))
        | inr b ↦ rw b h
      ]);
      news = λ i e h. elim (c.news i e h) [
        | inr ways ↦ inr ways
        | inl k ↦ elim (Bool-cases (suc s.ip == suc i)) [
          | inl b ↦ inr (
              subst (λ n. BothWays words ops (length output) c.places n (depth e))
                (same_index s.ip i b)
                (subst (λ d. BothWays words ops (length output) c.places s.ip d)
                  (ground (arith, k, b)) (op, g, c.holds.0, c.holds.1.0)))
          | inr b ↦ inl (rw b at k)
        ]
      ];
    },
    (at ts (suc s.ip), c.keeps s.ip (at ts (suc s.ip)) (ground arith), refl),
  )

  -- A place whose ways on the top of the worklist starts with.
  after :
      (s t : State) (states visited visited' : List State)
      → (c : Certificate (t ∷ states) visited visited')
      → Closed words ops (length output) (Visited visited') c.places s.ip (depth s)
      → Certificate (s ∷ states) visited visited'
  unfolding below
  after s t states visited visited' c h =
      extend s states visited visited' (below t states visited visited' c) h

  -- Where no `do` was visited at first, the visited ones go on among the places.
  both :
      (states visited' : List State) (c : Certificate states [] visited') (i d : ℕ)
      → Visited visited' i d
      → BothWays words ops (length output) c.places i d
  unfolding find_visited
  both states visited' c i d (v, found, e) = elim (c.news i v found) [
    | inl none_yet ↦ absurd (ground (arith, none_yet))
    | inr ways ↦ subst (BothWays words ops (length output) c.places i) e ways
  ]

  module _ (static : Static words) (r : Verifier) (visited' : List State) where
    abbrev Ended : ℕ → List State → List State → Type 0
    Ended n sts vis = check_loop n words ops sts vis (expects output) ≡ some (ok (r, visited'))

    -- The certificates that the rest of the loop gives.
    abbrev Rest : ℕ → Type 0
    Rest n = (sts vis : List State) → Ended n sts vis → Certificate sts vis visited'

    fitted :
        (fuel : ℕ) (s : State) (states visited : List State)
        → Rest fuel
        → Closed words ops (length output) (Visited visited') [] s.ip (depth s)
        → Ended fuel states visited
        → Certificate (s ∷ states) visited visited'
    fitted fuel s states visited rest h e =
        extend s states visited visited' (rest states visited e)
          (Closed-mono words ops (length output) (λ j d l. l) (λ j d q. absurd q) h)

    repeated :
        (fuel : ℕ) (s : State) (states visited : List State) (op : Operation) (ts : Typestack)
        → get_elem? ops s.ip ≡ some op
        → op.kind ≡ OperationKind.do_
        → depth s ≡ suc (length ts)
        → Rest fuel
        → Again words ops output (r, visited') fuel s states visited ts op.jump
        → Certificate (s ∷ states) visited visited'
    repeated fuel s states visited op ts g k d rest (inl (v, found, same, more)) =
        let c = rest states visited more in
        extend s states visited visited' c (
          loops op (length ts) g k d
            (v, c.keeps s.ip v found, sym (length-same_stack ts v.stack same)))
    repeated fuel s states visited op ts g k d rest (inr (new, more)) =
        let c =
          rest (at ts (suc s.ip) ∷ at ts op.jump ∷ states) (at ts (suc s.ip) ∷ visited) more in
        let (c', seen) = visit op s ts states visited visited' g new c in
        extend s states visited visited' c' (loops op (length ts) g k d seen)

    moved :
        (fuel : ℕ) (s : State) (states visited : List State) (op : Operation) (m : Move)
        → get_elem? ops s.ip ≡ some op
        → Moved words op.kind op s.stack m
        → Rest fuel
        → GoesOn words ops output (r, visited') fuel s states visited m
        → Certificate (s ∷ states) visited visited'
    unfolding below
    moved fuel s states visited op m g (plain ts' em k p) rest e =
        let c = rest (at ts' (suc s.ip) ∷ states) visited (rw em at e) in
        after s (at ts' (suc s.ip)) states visited visited' c
          (passes op (length ts') g k p c.holds.0)
    moved fuel s states visited op m g (call ts' em k p) rest e =
        let c = rest (at ts' (suc s.ip) ∷ states) visited (rw em at e) in
        after s (at ts' (suc s.ip)) states visited visited' c
          (calls op (length ts') g k p c.holds.0)
    moved fuel s states visited op m g (dynamic word found d) rest e =
        absurd (ground (arith, d, static op word found))
    moved fuel s states visited op m g (go em k) rest e =
        let c = rest (at s.stack op.jump ∷ states) visited (rw em at e) in
        after s (at s.stack op.jump) states visited visited' c (goes op g k c.holds.0)
    moved fuel s states visited op m g (fork ts' em k d) rest e =
        let c = rest (at ts' op.jump ∷ at ts' (suc s.ip) ∷ states) visited (rw em at e) in
        extend s states visited visited'
          (below (at ts' (suc s.ip)) states visited visited'
            (below (at ts' op.jump) (at ts' (suc s.ip) ∷ states) visited visited' c))
          (forks op (length ts') g k d c.holds.1.0 c.holds.0)
    moved fuel s states visited op m g (repeat ts' em k d) rest e =
        repeated fuel s states visited op ts' g k d rest (rw em at e)
    moved fuel s states visited op m g (out em k) rest e =
        let (fits, more) = rw em at e in
        fitted fuel s states visited rest (leaves op g k (length-expect_output s.stack output fits))
          more

    certified : (fuel : ℕ) → Rest fuel
    unfolding check_loop
    certified zero sts vis e = absurd (ground (arith, e))
    certified (suc fuel) [] vis e = subst (Certificate [] vis) (ground (arith, e)) (record {
      places = [];
      holds = tt;
      closed = λ i d p. absurd p;
      keeps = λ i v h. h;
      news = λ i v h. inl h;
    })
    certified (suc fuel) (s ∷ states) vis e = elim (Option-cases (get_elem? ops s.ip)) [
      | inl g ↦
          let (fits, more) = round-none words ops output (r, visited') fuel s states vis g e in
          fitted fuel s states vis (certified fuel)
            (ends g (length-expect_output s.stack output fits)) more
      | inr (op, g) ↦ elim (Outcome-cases (check_operation words op.kind op s.stack)) [
        | inl (c, f) ↦
            absurd (round-exited words ops output (r, visited') fuel s states vis op g e c f)
        | inr (m, f) ↦
            moved fuel s states vis op m g (check_operation-Moved words op.kind op s.stack m f)
              (certified fuel)
              (round-some words ops output (r, visited') fuel s states vis op g e m f)
      ]
    ]

-- A worklist that starts with one place and no visited `do` ends with places that are closed.
pub check_loop-AllClosed :
    (words : Words) (ops : List Operation) (output : Typestack) (fuel : ℕ) (start : Typestack)
    (r : Verifier × List State)
    → Static words
    → check_loop fuel words ops (at start 0 ∷ []) [] (expects output) ≡ some (ok r)
    → (places : Places) × AllClosed words ops (length output) places × Has places 0 (length start)
check_loop-AllClosed words ops output fuel start r static e =
    let c = certified words ops output static r.0 r.1 fuel (at start 0 ∷ []) [] e in
    (
      c.places,
      λ i d p.
          Closed-mono words ops (length output)
            (λ j d' seen. both words ops output (at start 0 ∷ []) r.1 c j d' seen) (λ j d' q. q)
            (c.closed i d p),
      c.holds.0,
    )
