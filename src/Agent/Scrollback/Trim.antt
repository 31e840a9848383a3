-- ===== src/Agent/Scrollback/Trim.antt =====
-- What goes from the scrollback, and what is left of a session's outputs.
use wisp_shell.Prelude.{
  take, take-append-drop, true, false, ℕ, suc, ◌+◌, ◌-◌, ◌≡◌, ◌≤◌, ◌<◌, refl, sym, ap, ◌∙◌, List,
  [], ◌∷◌, ◌++◌, length, ltb, arith, append-nil, append_assoc, Bool-cases, inl, inr, ◌⊎◌,
}
use wisp_shell.Agent.Scrollback.{
  total_len, pop_while_over, append_scrollback, replay_scrollback, record_outputs,
}
use wisp_shell.Agent.Scrollback.Window.{concat, concat-append, concat-replay_scrollback}

-- The chunks that stay and those that went, and why: the rest fits, and with any more it would not.
pub record IsTrimmed (max_bytes : ℕ) (ring rest : List (List ℕ)) : Type 0 where
  pub gone : List (List ℕ)
  pub split : ring ≡ gone ++ rest
  pub fits : total_len rest ≤ max_bytes
  pub needed :
      (others longer : List (List ℕ))
      → ring ≡ others ++ longer
      → total_len longer ≤ max_bytes
      → length gone ≤ length others

pop_over :
    (max_bytes : ℕ) (front : List ℕ) (ring rest : List (List ℕ))
    → max_bytes < total_len (front ∷ ring)
    → IsTrimmed max_bytes ring rest
    → IsTrimmed max_bytes (front ∷ ring) rest
unfolding total_len
pop_over max_bytes front ring rest over t = record {
  gone = front ∷ t.gone;
  split = ap (λ (cs : List (List ℕ)). front ∷ cs) t.split;
  fits = t.fits;
  needed = shorter;
}
  where
    shorter :
        (others longer : List (List ℕ))
        → front ∷ ring ≡ others ++ longer
        → total_len longer ≤ max_bytes
        → suc (length t.gone) ≤ length others
    shorter [] longer e f =
        let same : total_len (front ∷ ring) ≡ total_len longer = ap total_len e in
        absurd (omega (arith, over, same, f))
    shorter (o ∷ others) longer e f =
        let tail : ring ≡ others ++ longer = cc e in omega (arith, t.needed others longer tail f)

pop_while_over_lem :
    (max_bytes : ℕ) (ring : List (List ℕ))
    → IsTrimmed max_bytes ring (pop_while_over max_bytes ring (total_len ring))
unfolding pop_while_over total_len
pop_while_over_lem max_bytes [] = record {
  gone = [];
  split = refl;
  fits = omega arith;
  needed = λ others longer e f. omega arith;
}
pop_while_over_lem max_bytes (front ∷ ring) =
    by_total (Bool-cases (ltb max_bytes (total_len (front ∷ ring))))
      (pop_while_over_lem max_bytes ring)
  where
    by_total :
        (ltb max_bytes (total_len (front ∷ ring)) ≡ true)
          ⊎ (ltb max_bytes (total_len (front ∷ ring)) ≡ false)
        → IsTrimmed max_bytes ring (pop_while_over max_bytes ring (total_len ring))
        → IsTrimmed max_bytes
            (front ∷ ring)
            (pop_while_over max_bytes (front ∷ ring) (total_len (front ∷ ring)))
    by_total (inl over) t =
        let e : length front + total_len ring - length front ≡ total_len ring = omega arith in
        rw (over, e) (pop_over max_bytes front ring _ (ground (arith, over)) t)
    by_total (inr within) t = rw within (record {
      gone = [];
      split = refl;
      fits = ground (arith, within);
      needed = λ others longer e f. omega arith;
    })

-- A chunk goes to the end of the scrollback, and of the oldest chunks the fewest go that bring the
-- bytes within the limit.
pub append_scrollback-IsTrimmed :
    (ring : List (List ℕ)) (max_bytes : ℕ) (bytes : List ℕ)
    → IsTrimmed max_bytes (ring ++ bytes ∷ []) (append_scrollback ring max_bytes bytes)
unfolding append_scrollback
append_scrollback-IsTrimmed ring max_bytes bytes = pop_while_over_lem max_bytes (ring ++ bytes ∷ [])

kept_suffix :
    (max_bytes : ℕ) (outputs ring : List (List ℕ)) (before past : List ℕ)
    → past ≡ before ++ concat ring
    → (gone : List ℕ) × (past ++ concat outputs
        ≡ gone ++ concat (record_outputs max_bytes ring outputs))
unfolding record_outputs concat
kept_suffix max_bytes [] ring before past e = (before, rw append-nil e)
kept_suffix max_bytes (bytes ∷ outputs) ring before past e =
    let t = append_scrollback-IsTrimmed ring max_bytes bytes in
    let all : past ++ bytes ≡ before ++ concat (ring ++ bytes ∷ []) =
      rw (e, concat-append, append_assoc, append-nil) in
    let cut : concat (ring ++ bytes ∷ [])
        ≡ concat t.gone ++ concat (append_scrollback ring max_bytes bytes) =
      ap concat t.split ∙ concat-append t.gone (append_scrollback ring max_bytes bytes) in
    let (gone, rest) =
      kept_suffix max_bytes outputs (append_scrollback ring max_bytes bytes)
        (before ++ concat t.gone) (past ++ bytes)
        (all
          ∙ ap (λ (xs : List ℕ). before ++ xs) cut
          ∙ sym (
              append_assoc before (concat t.gone)
                (concat (append_scrollback ring max_bytes bytes)))) in
    (gone, sym (append_assoc past bytes (concat outputs)) ∙ rest)

-- What a session's scrollback replays after any outputs is an end of all that was put out.
pub replay_suffix :
    (max_bytes replay_bytes : ℕ) (outputs : List (List ℕ))
    → (gone : List ℕ) × (concat outputs
        ≡ gone ++ concat (replay_scrollback (record_outputs max_bytes [] outputs) replay_bytes))
unfolding concat
replay_suffix max_bytes replay_bytes outputs =
    let ring = record_outputs max_bytes [] outputs in
    let (gone, e) = kept_suffix max_bytes outputs [] [] [] refl in
    let n = length (concat ring) - replay_bytes in
    (
      gone ++ take n (concat ring),
      e
          ∙ ap (λ (xs : List ℕ). gone ++ xs)
              (sym (take-append-drop n (concat ring))
                ∙ ap (λ (xs : List ℕ). take n (concat ring) ++ xs)
                    (sym (concat-replay_scrollback ring replay_bytes)))
          ∙ sym (
              append_assoc gone (take n (concat ring))
                (concat (replay_scrollback ring replay_bytes))),
    )
