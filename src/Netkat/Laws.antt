-- ===== src/Netkat/Laws.antt =====
-- The constructors of lib/Frenetic_NetKAT_Optimize.ml keep the meaning that
-- lib/Frenetic_NetKAT_Semantics.ml gives to what they simplify.
use mathlib.Core.List.{flat_map, foldl, append-nil, append_assoc}
use frenetic.Base.{◌≡◌, refl, ap, ◌∙◌, sym, ◌&&◌, ◌||◌, List, [], ◌∷◌, ◌++◌, arith, all, any}
use frenetic.Netkat.Ast.{Pred, Policy}
use frenetic.Netkat.Eval.{Packets, eval_pred, eval}
use frenetic.Netkat.Smart.{
  mk_and, mk_or, mk_union, mk_seq, mk_big_and, mk_big_or, mk_big_union, mk_big_seq,
}

pub flat_map-append {ℓ κ} :
    {A : Type ℓ} {B : Type κ} (f : A → List B) (xs ys : List A)
    → flat_map f (xs ++ ys) ≡ flat_map f xs ++ flat_map f ys
unfolding flat_map
flat_map-append f [] ys = refl
flat_map-append f (x ∷ xs) ys = simp (flat_map-append f xs ys, append_assoc)

flat_map-nil {ℓ κ} : {A : Type ℓ} {B : Type κ} (xs : List A) → flat_map {B = B} (λ x. []) xs ≡ []
unfolding flat_map
flat_map-nil [] = refl
flat_map-nil (x ∷ xs) = flat_map-nil xs

pub flat_map-pure {ℓ} : {A : Type ℓ} (xs : List A) → flat_map (λ x. x ∷ []) xs ≡ xs
unfolding flat_map
flat_map-pure [] = refl
flat_map-pure (x ∷ xs) = ap (◌∷◌ x) (flat_map-pure xs)

pub flat_map_assoc {ℓ κ μ} :
    {A : Type ℓ} {B : Type κ} {C : Type μ} (f : A → List B) (g : B → List C) (xs : List A)
    → flat_map g (flat_map f xs) ≡ flat_map (λ x. flat_map g (f x)) xs
unfolding flat_map
flat_map_assoc f g [] = refl
flat_map_assoc f g (x ∷ xs) =
    flat_map-append g (f x) (flat_map f xs)
    ∙ ap (λ l. flat_map g (f x) ++ l) (flat_map_assoc f g xs)

module _ {P : Type 0} (m : Packets P) (pkt : P) where
  pub eval_pred-mk_and :
      (p q : Pred) → eval_pred m pkt (mk_and p q) ≡ (eval_pred m pkt p && eval_pred m pkt q)
  unfolding eval_pred mk_and
  eval_pred-mk_and Pred.true q = refl
  eval_pred-mk_and p Pred.true = ground arith
  eval_pred-mk_and Pred.false q = refl
  eval_pred-mk_and p Pred.false = ground arith
  eval_pred-mk_and p q = refl

  pub eval_pred-mk_or :
      (p q : Pred) → eval_pred m pkt (mk_or p q) ≡ (eval_pred m pkt p || eval_pred m pkt q)
  unfolding eval_pred mk_or
  eval_pred-mk_or Pred.true q = refl
  eval_pred-mk_or p Pred.true = ground arith
  eval_pred-mk_or Pred.false q = refl
  eval_pred-mk_or p Pred.false = ground arith
  eval_pred-mk_or p q = refl

  pub eval-mk_union : (p q : Policy) → eval m pkt (mk_union p q) ≡ eval m pkt p ++ eval m pkt q
  unfolding eval mk_union
  eval-mk_union (Policy.filter Pred.false) q = refl
  eval-mk_union p (Policy.filter Pred.false) = rw append-nil
  eval-mk_union p q = refl

module _ {P : Type 0} (m : Packets P) where
  pub eval-mk_seq :
      (pkt : P) (p q : Policy)
      → eval m pkt (mk_seq p q) ≡ flat_map (λ pkt'. eval m pkt' q) (eval m pkt p)
  unfolding eval mk_seq flat_map
  eval-mk_seq pkt (Policy.filter Pred.true) q = sym (append-nil _)
  eval-mk_seq pkt p (Policy.filter Pred.true) = sym (flat_map-pure (eval m pkt p))
  eval-mk_seq pkt (Policy.filter Pred.false) q = refl
  eval-mk_seq pkt p (Policy.filter Pred.false) = sym (flat_map-nil (eval m pkt p))
  eval-mk_seq pkt p q = refl

module _ {P : Type 0} (m : Packets P) (pkt : P) where
  eval_pred-foldl_and :
      (w : Pred) (ws : List Pred)
      → eval_pred m pkt (foldl mk_and w ws) ≡ (eval_pred m pkt w && all (eval_pred m pkt) ws)
  eval_pred-foldl_and w [] = ground arith
  eval_pred-foldl_and w (v ∷ ws) =
      ground (arith, eval_pred-foldl_and (mk_and w v) ws, eval_pred-mk_and m pkt w v)

  eval_pred-foldl_or :
      (w : Pred) (ws : List Pred)
      → eval_pred m pkt (foldl mk_or w ws) ≡ (eval_pred m pkt w || any (eval_pred m pkt) ws)
  eval_pred-foldl_or w [] = ground arith
  eval_pred-foldl_or w (v ∷ ws) =
      ground (arith, eval_pred-foldl_or (mk_or w v) ws, eval_pred-mk_or m pkt w v)

  eval-foldl_union :
      (w : Policy) (ws : List Policy)
      → eval m pkt (foldl mk_union w ws) ≡ eval m pkt w ++ flat_map (eval m pkt) ws
  unfolding flat_map
  eval-foldl_union w [] = sym (append-nil _)
  eval-foldl_union w (v ∷ ws) =
      simp (eval-foldl_union (mk_union w v) ws, eval-mk_union m pkt w v, append_assoc)

  -- A big conjunction, disjunction or union means what its parts mean together.
  pub eval_pred-mk_big_and :
      (ws : List Pred) → eval_pred m pkt (mk_big_and ws) ≡ all (eval_pred m pkt) ws
  unfolding mk_big_and eval_pred
  eval_pred-mk_big_and ws = eval_pred-foldl_and Pred.true ws

  pub eval_pred-mk_big_or :
      (ws : List Pred) → eval_pred m pkt (mk_big_or ws) ≡ any (eval_pred m pkt) ws
  unfolding mk_big_or eval_pred
  eval_pred-mk_big_or ws = eval_pred-foldl_or Pred.false ws

  pub eval-mk_big_union :
      (ws : List Policy) → eval m pkt (mk_big_union ws) ≡ flat_map (eval m pkt) ws
  unfolding mk_big_union eval
  eval-mk_big_union ws = eval-foldl_union (Policy.filter Pred.false) ws

-- What a sequence of policies does to each packet of a list.
unfoldable pub eval_seq : {P : Type 0} → Packets P → List P → List Policy → List P
unfolding flat_map
eval_seq m pkts [] = pkts
eval_seq m pkts (w ∷ ws) = eval_seq m (flat_map (λ pkt. eval m pkt w) pkts) ws

module _ {P : Type 0} (m : Packets P) (pkt : P) where
  eval-foldl_seq :
      (w : Policy) (ws : List Policy)
      → eval m pkt (foldl mk_seq w ws) ≡ eval_seq m (eval m pkt w) ws
  unfolding eval_seq
  eval-foldl_seq w [] = refl
  eval-foldl_seq w (v ∷ ws) =
      eval-foldl_seq (mk_seq w v) ws ∙ ap (λ l. eval_seq m l ws) (eval-mk_seq m pkt w v)

  pub eval-mk_big_seq : (ws : List Policy) → eval m pkt (mk_big_seq ws) ≡ eval_seq m (pkt ∷ []) ws
  unfolding mk_big_seq eval
  eval-mk_big_seq ws = eval-foldl_seq (Policy.filter Pred.true) ws
