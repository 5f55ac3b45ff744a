-- ===== src/Discovery/Weights/Window.antt =====
-- lang/python/frenetic/examples/discovery/topology.py: the counts of a link are a window on all of them.
use mathlib.Core.List.{append-nil, append_assoc}
use frenetic.Base.{
  ℕ, zero, suc, true, ◌+◌, ◌-◌, ◌≤◌, ◌≡◌, refl, sym, ap, ◌∙◌, List, [], ◌∷◌, ◌++◌, map, Option,
  none, some, length, length-append, length-map, ltb, arith, Bool-cases, inl, inr,
}
use frenetic.Discovery.Weights.Defs.{Floats, Count, num_intervals, remove_older, update_callback}

-- The list without its first elements.
unfoldable pub drop : {A : Type 0} → ℕ → List A → List A
drop zero xs = xs
drop (suc n) [] = []
drop (suc n) (x ∷ xs) = drop n xs

module _ {F : Type 0} (fl : Floats F) where
  -- One answer of the controller: two counters and the time.
  abbrev pub Answer : Type 0
  Answer = ℕ × ℕ × F

  abbrev pub counted : Answer → Count F
  counted (rx, tx, now) = record { timestamp = now; count = rx + tx }

  -- The counts of a link after some answers.
  unfoldable pub run : List Answer → Option (List (Count F)) → List (Count F)
  unfolding update_callback
  run [] none = []
  run [] (some counts) = counts
  run ((rx, tx, now) ∷ rest) counts = run rest (some (update_callback fl rx tx now counts).0)

  remove_older-drop :
      (cs : List (Count F)) → remove_older fl cs ≡ drop (length cs - (num_intervals + 1)) cs
  unfolding remove_older drop
  remove_older-drop [] = refl
  remove_older-drop (c ∷ cs) = elim (Bool-cases (ltb 6 (length (c ∷ cs)))) [
    | inl e ↦
        let q : length (c ∷ cs) - 6 ≡ suc (length cs - 6) = ground arith in
        rw e (rw q (remove_older-drop cs))
    | inr e ↦ let q : length (c ∷ cs) - 6 ≡ 0 = ground arith in rw e (rw q refl)
  ]

  length-remove_older : (cs : List (Count F)) → length (remove_older fl cs) ≤ num_intervals + 1
  unfolding remove_older
  length-remove_older [] = omega arith
  length-remove_older (c ∷ cs) = elim (Bool-cases (ltb 6 (length (c ∷ cs)))) [
    | inl e ↦ rw e (length-remove_older cs)
    | inr e ↦ rw e (ground arith)
  ]

  remove_older-again :
      (cs ds : List (Count F))
      → remove_older fl (remove_older fl cs ++ ds) ≡ remove_older fl (cs ++ ds)
  unfolding remove_older
  remove_older-again [] ds = refl
  remove_older-again (c ∷ cs) ds = elim (Bool-cases (ltb 6 (length (c ∷ cs)))) [
    | inl e ↦
        let q : ltb 6 (suc (length (cs ++ ds))) ≡ true = rw (length-append cs ds) (ground arith) in
        rw e (rw q (remove_older-again cs ds))
    | inr e ↦ rw e refl
  ]

  run-from :
      (answers : List Answer) (cs : List (Count F))
      → run answers (some (remove_older fl cs)) ≡ remove_older fl (cs ++ map counted answers)
  unfolding run update_callback
  run-from [] cs = ap (remove_older fl) (sym (append-nil cs))
  run-from ((rx, tx, now) ∷ rest) cs =
      let c : Count F = record { timestamp = now; count = rx + tx } in
      ap (λ l. run rest (some l)) (remove_older-again cs (c ∷ []))
      ∙ run-from rest (cs ++ c ∷ [])
      ∙ ap (remove_older fl) (append_assoc cs (c ∷ []) (map counted rest))

  run-all : (answers : List Answer) → run answers none ≡ remove_older fl (map counted answers)
  unfolding run update_callback remove_older
  run-all [] = refl
  run-all ((rx, tx, now) ∷ rest) =
      run-from rest ((record { timestamp = now; count = rx + tx }) ∷ [])

  -- After any answers of the controller, from a link without counts: the counts that update_callback
  -- keeps are those of the last num_intervals + 1 answers, in their order, or of all if there are fewer.
  pub run-window :
      (answers : List Answer)
      → (run answers none ≡ drop (length answers - (num_intervals + 1)) (map counted answers))
        × (length (run answers none) ≤ num_intervals + 1)
  run-window answers = (
    run-all answers
        ∙ remove_older-drop (map counted answers)
        ∙ rw (length-map counted answers) refl,
    rw (run-all answers) (length-remove_older (map counted answers)),
  )
