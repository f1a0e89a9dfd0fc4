-- ===== src/Types/Check/Steps.antt =====
-- src/types.cc: every step of a process keeps the depths that the checker has seen.
use stacky.Common.{
  ℕ, zero, suc, ◌+◌, ◌≡◌, refl, sym, subst, ◌⊎◌, inl, inr, Bool, true, false, Option, none, some,
  List, [], ◌∷◌, arith, if◌then◌else◌, length, get_elem?, text_eq, Bool-cases,
}
use stacky.Syntax.{Operation, OperationKind, Word, Text}
use stacky.Report.{ok}
use stacky.Program.{
  Frame, Process, Result, next, divides, fails, Status, running, finished, divided, stuck,
  operation_step, do_operation, step, run, leave, branch, enter, pass,
}
use stacky.Types.Effects.Depth.{Goes}
use stacky.Types.Effects.Frame.{operation_step-below}
use stacky.Dictionary.{Words, find_word}
use stacky.Types.Check.{State, Verifier, word_of, typecheck_word}
use stacky.Types.Check.Closed.{
  Places, Has, Closed, ends, leaves, passes, goes, forks, loops, calls, Called, IsPlain, IsGoto,
  AllClosed,
}
use stacky.Types.Check.Certificate.{Static, check_loop-AllClosed}
use stacky.Program.Laws.{suc_is_not_zero, step-some, same_fetched, run-suc, step-none}

-- The checker accepted a word with an effect.
abbrev pub Accepted : ℕ → Words → Bool → Word → Type 0
Accepted fuel words false word = Unit {0}
Accepted fuel words true word =
    (r : Verifier × List State) × (typecheck_word fuel words word ≡ some (ok r))

-- Every word of the dictionary is statically typed, and accepted if it has an effect.
abbrev pub AllAccepted : ℕ → Words → Words → Type 0
AllAccepted fuel words [] = Unit {0}
AllAccepted fuel words ((key, word) ∷ rest) =
    (word.is_dynamically_typed ≡ false)
    × Accepted fuel words word.has_effect word
    × AllAccepted fuel words rest

found-Accepted :
    (fuel : ℕ) (words rest : Words) (name : Text) (word : Word)
    → AllAccepted fuel words rest
    → find_word name rest ≡ some word
    → (word.is_dynamically_typed ≡ false) × Accepted fuel words word.has_effect word
unfolding find_word
found-Accepted fuel words [] name word h e = absurd (ground (arith, e))
found-Accepted fuel words ((key, w) ∷ rest) name word h e = elim (Bool-cases (text_eq key name)) [
  | inl b ↦
      subst (λ u. (u.is_dynamically_typed ≡ false) × Accepted fuel words u.has_effect u)
        (ground (arith, e, b)) (h.0, h.1)
  | inr b ↦ found-Accepted fuel words rest name word h.2 (rw b at e)
]

module _ (fuel : ℕ) (words : Words) (accepted : AllAccepted fuel words words) where
  pub words-Static : Static words
  words-Static op word = by_name op.word word
    where
      by_name :
          (name : Option Text) (word : Word)
          → word_of words name ≡ some word
          → word.is_dynamically_typed ≡ false
      by_name none word e = absurd (ground (arith, e))
      by_name (some name) word e = (found-Accepted fuel words words name word accepted e).0

  -- A body whose places are closed, and that leaves the depth `out`.
  pub record Sound (body : List Operation) (out : ℕ) : Type 0 where
    pub places : Places
    pub closed : AllClosed words body out places

  word-Sound :
      (name : Option Text) (word : Word)
      → word_of words name ≡ some word
      → word.has_effect ≡ true
      → (s : Sound word.function_body (length word.effect.output)) × Has s.places 0
          (length word.effect.input)
  unfolding typecheck_word
  word-Sound none word e h = absurd (ground (arith, e))
  word-Sound (some name) word e h =
      let a = (found-Accepted fuel words words name word accepted e).1 in
      let (r, checked) = subst (λ b. Accepted fuel words b word) h a in
      let (places, closed, start) =
        check_loop-AllClosed words word.function_body word.effect.output fuel word.effect.input r
          words-Static checked in
      (record { places = places; closed = closed }, start)

  -- The depth of the stack fits the place of every frame; `final` is left at the end.
  abbrev pub FramesFit : ℕ → List Frame → ℕ → Type 0
  FramesFit final [] h = h ≡ final
  FramesFit final (f ∷ fs) h =
      (out : ℕ) × (s : Sound f.body out) × (d : ℕ) × (b : ℕ) × Has s.places f.ip d
      × (h ≡ d + b)
      × FramesFit final fs (out + b)

  abbrev pub Fits : ℕ → Process → Type 0
  Fits final p = FramesFit final (record { body = p.body; ip = p.ip } ∷ p.frames) (length p.stack)

  abbrev pub StatusFits : ℕ → Status → Type 0
  StatusFits final (running p) = Fits final p
  StatusFits final (finished s) = length s ≡ final
  StatusFits final divided = Unit {0}
  StatusFits final stuck = ⊥

  leave-Fits :
      (final : ℕ) (p : Process) (fs : List Frame)
      → FramesFit final fs (length p.stack)
      → StatusFits final (leave p fs)
  leave-Fits final p [] h = h
  leave-Fits final p (f ∷ fs) h = h

  module _ (final : ℕ) (p : Process) (out : ℕ) (s : Sound p.body out) (d b : ℕ)
      (height : length p.stack ≡ d + b) (callers : FramesFit final p.frames (out + b)) where
    -- The process at another place of the body.
    at_place :
        (i d' : ℕ) (stack : List ℕ)
        → Has s.places i d'
        → length stack ≡ d' + b
        → Fits final (record p { ip = i; stack = stack })
    at_place i d' stack n e = (out, s, d', b, n, e, callers)

    out_of : d ≡ out → StatusFits final (leave p p.frames)
    out_of e =
        leave-Fits final p p.frames
          (subst (FramesFit final p.frames) (omega (arith, height, e)) callers)

    pass-Fits :
        (d' : ℕ) (r : Result)
        → Has s.places (suc p.ip) d'
        → Goes (d' + b) r
        → StatusFits final (pass p r)
    pass-Fits d' (next stack) n g = at_place (suc p.ip) d' stack n g
    pass-Fits d' divides n g = tt
    pass-Fits d' fails n g = g

    branch-Fits :
        (op : Operation) (d' : ℕ) (stack : List ℕ)
        → d ≡ suc d'
        → length stack ≡ d + b
        → Has s.places (suc p.ip) d'
        → Has s.places op.jump d'
        → StatusFits final (branch p op stack)
    branch-Fits op d' [] e h n m = omega (arith, e, h)
    branch-Fits op d' (zero ∷ stack) e h n m = at_place op.jump d' stack m (omega (arith, e, h))
    branch-Fits op d' (suc c ∷ stack) e h n m =
        subst (λ t. Fits final (record p { ip = if t then op.jump else suc p.ip; stack = stack }))
          (sym (suc_is_not_zero c)) (at_place (suc p.ip) d' stack n (omega (arith, e, h)))

    enter-Fits :
        (op : Operation) (d' : ℕ)
        → Called words op d d'
        → Has s.places (suc p.ip) d'
        → StatusFits final (enter p (word_of words op.word))
    enter-Fits op d' c n =
        let (body, start) = word-Sound op.word c.word c.found c.has_effect in
        subst (λ o. StatusFits final (enter p o)) (sym c.found)
          (
            length c.word.effect.output,
            body,
            length c.word.effect.input,
            c.below + b,
            start,
            omega (arith, height, c.before),
            (out, s, d', b, n, omega (arith, c.after), callers),
          )

    plain-Fits :
        (k : OperationKind) (op : Operation) (v d' : ℕ)
        → IsPlain k
        → Goes (d' + b) (operation_step v k op p.stack)
        → Has s.places (suc p.ip) d'
        → StatusFits final (do_operation words v k op p)
    unfolding do_operation
    plain-Fits OperationKind.push_int op v d' k g n =
        pass-Fits d' (operation_step v OperationKind.push_int op p.stack) n g
    plain-Fits OperationKind.push_symbol op v d' k g n =
        pass-Fits d' (operation_step v OperationKind.push_symbol op p.stack) n g
    plain-Fits OperationKind.cast op v d' k g n =
        pass-Fits d' (operation_step v OperationKind.cast op p.stack) n g
    plain-Fits OperationKind.while op v d' k g n =
        pass-Fits d' (operation_step v OperationKind.while op p.stack) n g
    plain-Fits OperationKind.intrinsic op v d' k g n =
        pass-Fits d' (operation_step v OperationKind.intrinsic op p.stack) n g
    plain-Fits _ op v d' k g n = absurd k

    goto-Fits :
        (k : OperationKind) (op : Operation) (v : ℕ)
        → IsGoto k
        → Has s.places op.jump d
        → StatusFits final (do_operation words v k op p)
    unfolding do_operation
    goto-Fits OperationKind.else_ op v k n = at_place op.jump d p.stack n height
    goto-Fits OperationKind.end op v k n = at_place op.jump d p.stack n height
    goto-Fits _ op v k n = absurd k

    -- What the step does with an operation that was fetched.
    fetched :
        (op : Operation) (v : ℕ)
        → get_elem? p.body p.ip ≡ some op
        → StatusFits final (do_operation words v op.kind op p)
        → StatusFits final (step words v p)
    fetched op v g h = subst (StatusFits final) (sym (step-some words v p op g)) h

    of_kind :
        (op : Operation) (k : OperationKind) (v : ℕ)
        → op.kind ≡ k
        → StatusFits final (do_operation words v k op p)
        → StatusFits final (do_operation words v op.kind op p)
    of_kind op k v e h = subst (λ l. StatusFits final (do_operation words v l op p)) (sym e) h

    step-Fits :
        (v : ℕ)
        → Closed words p.body out
            (λ i d'.
              (op : Operation) × (get_elem? p.body i ≡ some op)
              × Has s.places (suc i) d'
              × Has s.places op.jump d')
            s.places
            p.ip
            d
        → StatusFits final (step words v p)
    unfolding do_operation
    step-Fits v (ends g e) = subst (StatusFits final) (sym (step-none words v p g)) (out_of e)
    step-Fits v (leaves op g k e) = fetched op v g (of_kind op OperationKind.return v k (out_of e))
    step-Fits v (passes op d' g k q n) =
        fetched op v g (
          plain-Fits op.kind op v d' k (operation_step-below op.kind op d d' q b v p.stack height)
            n)
    step-Fits v (goes op g k n) = fetched op v g (goto-Fits op.kind op v k n)
    step-Fits v (forks op d' g k e n m) =
        fetched op v g (of_kind op OperationKind.if_ v k (branch-Fits op d' p.stack e height n m))
    step-Fits v (loops op d' g k e (op', g', n, m)) = fetched op v g (
        of_kind op OperationKind.do_ v k (
          branch-Fits op d' p.stack e height n
            (subst (λ (o : Operation). Has s.places o.jump d') (same_fetched p op' op g' g) m)))
    step-Fits v (calls op d' g k c n) =
        fetched op v g (of_kind op OperationKind.call_symbol v k (enter-Fits op d' c n))

  process-Fits : (final v : ℕ) (p : Process) → Fits final p → StatusFits final (step words v p)
  process-Fits final v p (out, s, d, b, n, height, callers) =
      step-Fits final p out s d b height callers v (s.closed p.ip d n)

  Status-cases :
      (final : ℕ) (r : Status)
      → StatusFits final r
      → ((q : Process) × (r ≡ running q) × Fits final q)
        ⊎ ((s : List ℕ) × (r ≡ finished s) × (length s ≡ final))
        ⊎ (r ≡ divided)
  Status-cases final (running q) h = inl (q, refl, h)
  Status-cases final (finished s) h = inr (inl (s, refl, h))
  Status-cases final divided h = inr (inr refl)
  Status-cases final stuck h = absurd h

  pub run-Fits :
      (final : ℕ) (world : ℕ → ℕ) (n : ℕ) (p : Process)
      → Fits final p
      → StatusFits final (run words world n p)
  unfolding run
  run-Fits final world zero p h = h
  run-Fits final world (suc n) p h =
      elim (Status-cases final (step words (world n) p) (process-Fits final (world n) p h)) [
        | inl (q, e, k) ↦
            subst (StatusFits final) (sym (run-suc words world n p _ e))
              (run-Fits final world n q k)
        | inr (inl (s, e, k)) ↦ subst (StatusFits final) (sym (run-suc words world n p _ e)) k
        | inr (inr e) ↦ subst (StatusFits final) (sym (run-suc words world n p _ e)) tt
      ]
