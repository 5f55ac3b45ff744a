-- ===== src/Discovery/Weights/Refresh.antt =====
-- lang/python/frenetic/examples/discovery/topology.py: a round of update_weights ends, and counts each link
-- once.
use mathlib.Core.List.{reverse, reverse-cons}
use frenetic.Base.{
  ℕ, Bool, false, ◌≡◌, refl, ap, ◌∙◌, List, [], ◌∷◌, ◌++◌, map, Option, some, Result, ok, err,
  ◌>>=◌, any-reverse, All, All-reverse,
}
use frenetic.Syntax.Ast.{Policy}
use frenetic.Syntax.Unions.{AreApart}
use frenetic.Discovery.Graph.{Node, DiGraph}
use frenetic.Discovery.State.{State, Observer}
use frenetic.Discovery.Weights.Defs.{Floats}
use frenetic.Discovery.Weights.Counting.{
  fresh, IsLabelled, IsAveraged, AreCounted, one, IsLabelled-later, IsAveraged-later, counted-later,
}
use frenetic.Discovery.Weights.Round.{
  Edge, edge_eq, Counted, IsCounted, Stats, waiting, Turn, update_next, update_weights_helper,
  update_weights, label_of, asked, store, with_weight, answer, answers,
}

bind-ok : {A : Type 0} (r : Result A) → (r >>= λ a. ok a) ≡ r
bind-ok (ok a) = refl
bind-ok (err e) = refl

module _ {G F : Type 0} (d : DiGraph G) (c : Counted G F) (fl : Floats F)
    (run_update : Observer → State G → Result Policy) (law : IsCounted d c)
    (reply : Edge → Stats F) where
  abbrev pub clean_after : List Edge → Bool → Bool
  clean_after [] clean = clean
  clean_after (e ∷ edges) clean = false

  abbrev pub finished : State G → Turn G
  finished s = update_weights_helper d c fl run_update [] s

  abbrev asking : Edge → ℕ → List Edge → State G → Turn G
  asking e port edges s = record { round = waiting e port edges; state = s; result = ok [] }

  label-ok :
      (o : Option (Option ℕ)) (l : ℕ) → o ≡ some (some l) → label_of d c fl run_update o ≡ ok l
  label-ok o l h = ap (label_of d c fl run_update) h

  -- The answer for an edge leads to the request for the next one.
  answer-goes_on :
      (s : State G) (u v : Node) (port l : ℕ) (w : F) (rest : List Edge)
      → d.edge u v s.network ≡ some (some l)
      → (fresh d c fl law reply s.network (u, v)).1 ≡ ok w
      → answer d c fl run_update (waiting (u, v) port rest) (reply (u, v)) s
        ≡ update_weights_helper d c fl run_update rest (record s {
          network = c.add_counts u v l w (fresh d c fl law reply s.network (u, v)).0 s.network;
          clean = false;
        })
  unfolding answer
  answer-goes_on s u v port l w rest there avg =
      let cs = (fresh d c fl law reply s.network (u, v)).0 in
      rw (there, answer)
        (ap (with_weight d c fl run_update u v cs rest s) avg
          ∙ ap (store d c fl run_update u v cs w rest s) (label-ok (d.edge u v s.network) l there))

  resumed : (t : Turn G) → record t { result = t.result >>= λ more. ok more } ≡ t
  resumed t = ap (λ r. record t { result = r }) (bind-ok t.result)

  answers-first :
      (s : State G) (e : Edge) (port : ℕ) (rest : List Edge) (stats : Stats F)
      (later : List (Stats F))
      → answers d c fl run_update (asking e port rest s) (stats ∷ later)
        ≡ answers d c fl run_update (answer d c fl run_update (waiting e port rest) stats s) later
  unfolding answers
  answers-first s e port rest stats later =
      ap (λ t. answers d c fl run_update t later)
        (resumed (answer d c fl run_update (waiting e port rest) stats s))

  update_weights_helper-asks :
      (s : State G) (u v : Node) (l : ℕ) (rest : List Edge)
      → d.edge u v s.network ≡ some (some l)
      → update_weights_helper d c fl run_update ((u, v) ∷ rest) s ≡ asking (u, v) l rest s
  unfolding update_weights_helper update_next
  update_weights_helper-asks s u v l rest there =
      ap (asked d c fl run_update (u, v) rest s) (label-ok (d.edge u v s.network) l there)

  go :
      (s : State G) (u v : Node) (port : ℕ) (rest : List Edge)
      → AreApart edge_eq ((u, v) ∷ rest)
      → All (IsLabelled d c fl law reply s.network) ((u, v) ∷ rest)
      → All (IsAveraged d c fl law reply s.network) ((u, v) ∷ rest)
      → (g : G) × (answers d c fl run_update (asking (u, v) port rest s) (map reply ((u, v) ∷ rest))
          ≡ finished (record s { network = g; clean = false }))
        × AreCounted d c fl law reply s.network ((u, v) ∷ rest) g
  unfolding answers
  go s u v port [] a ((l, there), h) ((w, avg), b) =
      let g = s.network in
      (
        one d c fl law reply g u v l w there,
        answers-first s (u, v) port [] (reply (u, v)) []
            ∙ answer-goes_on s u v port l w [] there avg,
        counted-later d c fl law reply g u v l w there [] (one d c fl law reply g u v l w there)
            refl (λ i j. refl, λ i j. refl),
      )
  go s u v port ((i, j) ∷ rest) (a, a') ((l, there), h) ((w, avg), b) =
      let g = s.network in
      let h' = IsLabelled-later d c fl law reply g u v l w there ((i, j) ∷ rest) h in
      let b' = IsAveraged-later d c fl law reply g u v l w there ((i, j) ∷ rest) a b in
      let s' = record s { network = one d c fl law reply g u v l w there; clean = false } in
      let (g', e, counted) = go s' i j h'.0.0 rest a' h' b' in
      (
        g',
        answers-first s (u, v) port ((i, j) ∷ rest) (reply (u, v)) (map reply ((i, j) ∷ rest))
            ∙ ap (λ t. answers d c fl run_update t (map reply ((i, j) ∷ rest)))
                (answer-goes_on s u v port l w ((i, j) ∷ rest) there avg
                  ∙ update_weights_helper-asks s' i j h'.0.0 rest h'.0.1)
            ∙ e,
        counted-later d c fl law reply g u v l w there ((i, j) ∷ rest) g' a counted,
      )

  clean_after-append :
      (edges : List Edge) (e : Edge) (clean : Bool) → clean_after (edges ++ e ∷ []) clean ≡ false
  clean_after-append [] e clean = refl
  clean_after-append (f ∷ edges) e clean = refl

  clean_after-reverse :
      (edges : List Edge) (clean : Bool)
      → clean_after (reverse edges) clean ≡ clean_after edges clean
  clean_after-reverse [] clean = refl
  clean_after-reverse (e ∷ edges) clean =
      rw (reverse-cons e edges) (clean_after-append (reverse edges) e clean)

  from_start :
      (s : State G) (edges : List Edge)
      → AreApart edge_eq edges
      → All (IsLabelled d c fl law reply s.network) edges
      → All (IsAveraged d c fl law reply s.network) edges
      → (g : G) × (answers d c fl run_update
            (update_weights_helper d c fl run_update edges s)
            (map reply edges)
          ≡ finished (record s { network = g; clean = clean_after edges s.clean }))
        × AreCounted d c fl law reply s.network edges g
  unfolding answers
  from_start s [] a h b = (s.network, refl, (λ i j. refl, λ i j. refl))
  from_start s ((u, v) ∷ rest) a h b =
      let (g, e, counted) = go s u v h.0.0 rest a h b in
      (
        g,
        ap (λ t. answers d c fl run_update t (map reply ((u, v) ∷ rest)))
              (update_weights_helper-asks s u v h.0.0 rest h.0.1)
            ∙ e,
        counted,
      )

  -- A round of update_weights, where no edge is twice among those with a label and the averages can be
  -- made, ends with as many answers as there are such edges, and notifies the observers if the state is not
  -- clean, which it is not if there are any. It keeps the links, adds to the counts of each of these edges
  -- once what the answer for it says, and leaves the other counts as they are.
  pub answers-update_weights :
      (s : State G)
      → AreApart edge_eq (reverse (c.labelled s.network))
      → All (IsLabelled d c fl law reply s.network) (c.labelled s.network)
      → All (IsAveraged d c fl law reply s.network) (c.labelled s.network)
      → (g : G) × (answers d c fl run_update
            (update_weights d c fl run_update s)
            (map reply (reverse (c.labelled s.network)))
          ≡ finished (record s { network = g; clean = clean_after (c.labelled s.network) s.clean }))
        × AreCounted d c fl law reply s.network (c.labelled s.network) g
  unfolding update_weights
  answers-update_weights s a h b =
      let edges = c.labelled s.network in
      let (g, e, (same, counted)) =
        from_start s (reverse edges) a (All-reverse (IsLabelled d c fl law reply s.network) edges h)
          (All-reverse (IsAveraged d c fl law reply s.network) edges b) in
      (
        g,
        e
            ∙ ap (λ b. finished (record s { network = g; clean = b }))
                (clean_after-reverse edges s.clean),
        (same, λ i j. counted i j ∙ rw (any-reverse (λ e. edge_eq e (i, j)) edges) refl),
      )
